-- ===== src/Staging/Committed.antt =====
-- triAI-Engine/src/staging.rs: what a client relies on when it finalizes a part and restores it.
use carlo_one_core.Prelude.{
  ℕ, ◌≤◌, Bool, true, false, ◌≡◌, refl, sym, ◌∙◌, ◌⊎◌, inl, inr, Option, some, List, Text, length,
  u64_max, Bool-cases,
}
use carlo_one_core.Staging.Files.{Dir, get, put, get-put, same_file_refl}
use carlo_one_core.Staging.Record.{CommitRecord}
use carlo_one_core.Staging.Kept.{AllKept}
use carlo_one_core.Staging.Blocks.{IsPlain, Allows, get-put_apart, commit_bin_apart}
use carlo_one_core.Staging.Commits.{IsDigest}
use carlo_one_core.Staging.Stages.{finalize_part-Refines}
use carlo_one_core.Staging.Recovery.{
  restored, RestoreStop, restores, at_copy, at_tmp_sync, at_target_rename, at_target_sync, replaced,
  restore_active,
}
use carlo_one_core.Staging.{
  Stop, StageResult, done, failed, is_done, part_path, bin_path, commit_path, is_valid_id,
  is_at_rename, is_at_digest, is_before_sync, refuses, record_for, marked, renamed, digested,
  commit_part, finalize_part, runs_through, at_open, at_sync, at_digest, at_rename,
  at_commit_create, at_commit_sync, at_dir_sync, at_write, at_commit_write,
}

-- A commit file leaves the bytes as they are.
get-put_commit :
    (r : CommitRecord) (c : List ℕ) (d : Dir) (content : List ℕ)
    → get (bin_path r.block_id r.generation) d ≡ some content
    → get (bin_path r.block_id r.generation) (put (commit_path r.block_id r.generation) c d)
      ≡ some content
get-put_commit r c d content q =
    get-put_apart (commit_path r.block_id r.generation) (bin_path r.block_id r.generation) c d
      (commit_bin_apart r.block_id r.generation)
    ∙ q

get-marked :
    (stop : Stop) (r : CommitRecord) (d : Dir) (content : List ℕ)
    → get (bin_path r.block_id r.generation) d ≡ some content
    → get (bin_path r.block_id r.generation) (marked stop r d).0 ≡ some content
unfolding marked
get-marked at_commit_create r d content q = q
get-marked at_commit_sync r d content q = get-put_commit r _ d content q
get-marked at_dir_sync r d content q = get-put_commit r _ d content q
get-marked runs_through r d content q = get-put_commit r _ d content q
get-marked at_open r d content q = get-put_commit r _ d content q
get-marked at_sync r d content q = get-put_commit r _ d content q
get-marked at_digest r d content q = get-put_commit r _ d content q
get-marked at_rename r d content q = get-put_commit r _ d content q
get-marked (at_write n) r d content q = get-put_commit r _ d content q
get-marked (at_commit_write n) r d content q = get-put_commit r _ d content q

-- What a part that is committed leaves: its bytes under the name of the block, of the digest that
-- was expected.
pub record IsCommitted (sha : List ℕ → Text) (id : Text) (generation : ℕ) (expected : Option Text)
    (content : List ℕ) (d : Dir) : Type 0 where
  pub right : refuses expected (sha content) ≡ false
  pub bytes : get (bin_path id generation) d ≡ some content

true_no_false : {A : Type 0} → true ≡ false → A
true_no_false e = absurd cc

module _ (sha : List ℕ → Text) (id : Text) (generation : ℕ) (stop : Stop) (expected : Option Text)
    (content : List ℕ) where
  renamed-IsCommitted :
      (d : Dir)
      → refuses expected (sha content) ≡ false
      → is_done (renamed stop (record_for sha id generation content) content d).1 ≡ true
      → IsCommitted sha id generation expected content
          (renamed stop (record_for sha id generation content) content d).0
  unfolding renamed
  renamed-IsCommitted d right h = elim (Bool-cases (is_at_rename stop)) [
    | inl stops ↦ true_no_false (sym (rw stops at h))
    | inr goes ↦ rw goes (record {
      right = right;
      bytes = get-marked stop (record_for sha id generation content) _ content (
          get-put (bin_path id generation) (bin_path id generation) content _
          ∙ rw (same_file_refl (bin_path id generation)) refl);
    })
  ]

  digested-IsCommitted :
      (d : Dir)
      → is_done (digested sha stop id generation expected d (some content)).1 ≡ true
      → IsCommitted sha id generation expected content
          (digested sha stop id generation expected d (some content)).0
  unfolding digested
  digested-IsCommitted d h = elim (Bool-cases (is_at_digest stop)) [
    | inl stops ↦ true_no_false (sym (rw stops at h))
    | inr goes ↦ elim (Bool-cases (refuses expected (sha content))) [
      | inl wrong ↦ true_no_false (sym (rw (goes, wrong) at h))
      | inr right ↦ rw (goes, right) (renamed-IsCommitted d right (rw (goes, right) at h))
    ]
  ]

  pub finalize_part-IsCommitted :
      (d : Dir)
      → get (part_path id generation) d ≡ some content
      → is_done (finalize_part sha stop id generation expected d).1 ≡ true
      → IsCommitted sha id generation expected content
          (finalize_part sha stop id generation expected d).0
  unfolding finalize_part commit_part
  finalize_part-IsCommitted d q h = elim (Bool-cases (is_valid_id id)) [
    | inr bad ↦ true_no_false (sym (rw bad at h))
    | inl good ↦ elim (Bool-cases (is_before_sync stop)) [
      | inl stops ↦ true_no_false (sym (rw (good, stops) at h))
      | inr goes ↦ rw (good, goes, q) (digested-IsCommitted d (rw (good, goes, q) at h))
    ]
  ]

done-Allows :
    (r : StageResult) (old new : Option (List ℕ)) (content : List ℕ)
    → is_done r ≡ true
    → Allows r old new content
    → new ≡ some content
done-Allows (done r) old new content h a = a
done-Allows (failed e) old new content h a = true_no_false (sym h)

-- It is then what is restored.
pub finalize_part-restored :
    (sha : List ℕ → Text) (id : Text) (generation : ℕ) (stop : Stop) (expected : Option Text)
    (content : List ℕ) (d : Dir)
    → IsDigest sha
    → AllKept d
    → IsPlain id generation
    → length content ≤ u64_max
    → get (part_path id generation) d ≡ some content
    → is_done (finalize_part sha stop id generation expected d).1 ≡ true
    → restored sha id generation (finalize_part sha stop id generation expected d).0 ≡ some content
finalize_part-restored sha id generation stop expected content d hex k plain fits q h =
    done-Allows _ _ _ content h
      (finalize_part-Refines sha hex id generation content plain fits stop expected d k q).own

replaced_lem :
    (stop : RestoreStop) (target : Option (List ℕ)) (content : List ℕ)
    → (replaced stop target (some content) ≡ (target, false))
      ⊎ ((b : Bool) × (replaced stop target (some content) ≡ (some content, b)))
unfolding replaced
replaced_lem restores target content = inr (true, refl)
replaced_lem at_target_sync target content = inr (false, refl)
replaced_lem at_copy target content = inl refl
replaced_lem at_tmp_sync target content = inl refl
replaced_lem at_target_rename target content = inl refl

-- A restore leaves the target, or puts there what it restores; it does so if it succeeds.
pub restore_active_lem :
    (sha : List ℕ → Text) (stop : RestoreStop) (id : Text) (generation : ℕ) (d : Dir)
    (target : Option (List ℕ)) (content : List ℕ)
    → restored sha id generation d ≡ some content
    → (restore_active sha stop id generation d target ≡ (target, false))
      ⊎ ((b : Bool) × (restore_active sha stop id generation d target ≡ (some content, b)))
unfolding restore_active
restore_active_lem sha stop id generation d target content q = elim (Bool-cases (is_valid_id id)) [
  | inr bad ↦ inl (rw bad refl)
  | inl good ↦ rw (good, q) (replaced_lem stop target content)
]

-- A valid part of the digest that was expected is committed if nothing stops the call.
pub finalize_part_done :
    (sha : List ℕ → Text) (id : Text) (generation : ℕ) (expected : Option Text) (content : List ℕ)
    (d : Dir)
    → is_valid_id id ≡ true
    → get (part_path id generation) d ≡ some content
    → refuses expected (sha content) ≡ false
    → is_done (finalize_part sha runs_through id generation expected d).1 ≡ true
unfolding finalize_part commit_part digested renamed marked
finalize_part_done sha id generation expected content d good q right = rw (good, q, right) refl

pub restore_active_done :
    (sha : List ℕ → Text) (id : Text) (generation : ℕ) (d : Dir) (target : Option (List ℕ))
    (content : List ℕ)
    → is_valid_id id ≡ true
    → restored sha id generation d ≡ some content
    → restore_active sha restores id generation d target ≡ (some content, true)
unfolding restore_active replaced
restore_active_done sha id generation d target content good q = rw (good, q) refl
