-- ===== src/Staging/Stages.antt =====
-- triAI-Engine/src/staging.rs: `stage_bytes` and `finalize_part`, wherever they stop.
use carlo_one_core.Prelude.{
  ℕ, ◌≤◌, ◌≡◌, refl, subst, ◌∙◌, inl, inr, Option, none, some, List, Text, length, take, u64_max,
  Bool-cases,
}
use carlo_one_core.Staging.Files.{Dir, get, put, remove, get-put, same_file_refl}
use carlo_one_core.Staging.Kept.{AllKept}
use carlo_one_core.Staging.Blocks.{
  IsPlain, put-part-IsUnseen, remove-part-IsUnseen, put-bin-IsLocal,
}
use carlo_one_core.Staging.{
  Stop, runs_through, at_open, at_sync, at_digest, at_rename, at_commit_create, at_commit_sync,
  at_dir_sync, at_write, at_commit_write, part_path, bin_path, is_valid_id, marked, renamed,
  refuses, is_there, record_for, digested, commit_part, written, stage_bytes, is_at_rename,
  is_at_digest, is_before_sync, finalize_part,
}
use carlo_one_core.Staging.Recovery.{restored}
use carlo_one_core.Staging.Commits.{
  Refines, IsDigest, IsLocal-trans, unseen-IsLocal, after_local, marked-Refines, unseen-Refines,
  nothing-IsUnseen,
}

module _ (sha : List ℕ → Text) (hex : IsDigest sha) (id : Text) (generation : ℕ) (content : List ℕ)
    (plain : IsPlain id generation) (fits : length content ≤ u64_max) where
  moved-Refines :
      (stop : Stop) (d : Dir)
      → AllKept d
      → Refines sha id generation content d (restored sha id generation d) (
          marked stop
            (record_for sha id generation content)
            (put (bin_path id generation) content (remove (part_path id generation) d)))
  unfolding IsDigest
  moved-Refines stop d k =
      let u = remove-part-IsUnseen sha id generation d k in
      let l = put-bin-IsLocal sha id generation _ u.kept content in
      after_local sha id generation content d _ _ _
        (IsLocal-trans sha id generation d _ _ (unseen-IsLocal sha id generation d _ u) l)
        (marked-Refines sha (record_for sha id generation content) content _ _ l.kept
          (record {
            id = plain.printable;
            generation = plain.in_u64;
            bytes = fits;
            sha256 = hex content;
          })
          refl refl
          (get-put (bin_path id generation) (bin_path id generation) content _
            ∙ rw (same_file_refl (bin_path id generation)) refl)
          stop)

  renamed-Refines :
      (stop : Stop) (d : Dir)
      → AllKept d
      → Refines sha id generation content d
          (restored sha id generation d)
          (renamed stop (record_for sha id generation content) content d)
  unfolding renamed
  renamed-Refines stop d k = elim (Bool-cases (is_at_rename stop)) [
    | inl stops ↦
        rw stops (unseen-Refines sha id generation content d d _ (nothing-IsUnseen sha d k))
    | inr goes ↦ rw goes (moved-Refines stop d k)
  ]

  digested-Refines :
      (stop : Stop) (expected : Option Text) (d : Dir)
      → AllKept d
      → Refines sha id generation content d
          (restored sha id generation d)
          (digested sha stop id generation expected d (some content))
  unfolding digested
  digested-Refines stop expected d k = elim (Bool-cases (is_at_digest stop)) [
    | inl stops ↦
        rw stops (unseen-Refines sha id generation content d d _ (nothing-IsUnseen sha d k))
    | inr goes ↦ elim (Bool-cases (refuses expected (sha content))) [
      | inl wrong ↦
          rw (goes, wrong)
            (unseen-Refines sha id generation content d _ _
              (remove-part-IsUnseen sha id generation d k))
      | inr right ↦ rw (goes, right) (renamed-Refines stop d k)
    ]
  ]

  -- The bytes are in the part.
  committed-Refines :
      (stop : Stop) (expected : Option Text) (d : Dir)
      → AllKept d
      → get (part_path id generation) d ≡ some content
      → Refines sha id generation content d
          (restored sha id generation d)
          (commit_part sha stop id generation expected d)
  unfolding commit_part
  committed-Refines stop expected d k p = rw p (digested-Refines stop expected d k)

  staged-Refines :
      (stop : Stop) (d : Dir)
      → AllKept d
      → Refines sha id generation content d
          (restored sha id generation d)
          (commit_part sha stop id generation none (put (part_path id generation) content d))
  staged-Refines stop d k =
      let u = put-part-IsUnseen sha id generation d k content in
      after_local sha id generation content d _ _ _ (unseen-IsLocal sha id generation d _ u) (
        subst
          (λ old.
            Refines sha id generation content (put (part_path id generation) content d) old
              (commit_part sha stop id generation none (put (part_path id generation) content d)))
          (u.view id generation)
          (committed-Refines stop none _ u.kept (
            get-put (part_path id generation) (part_path id generation) content d
            ∙ rw (same_file_refl (part_path id generation)) refl)))

  written-Refines :
      (stop : Stop) (d : Dir)
      → AllKept d
      → Refines sha id generation content d
          (restored sha id generation d)
          (written sha stop id generation content d)
  unfolding written
  written-Refines at_open d k =
      unseen-Refines sha id generation content d d _ (nothing-IsUnseen sha d k)
  written-Refines (at_write m) d k =
      unseen-Refines sha id generation content d _ _
        (put-part-IsUnseen sha id generation d k (take m content))
  written-Refines at_sync d k =
      unseen-Refines sha id generation content d _ _
        (put-part-IsUnseen sha id generation d k content)
  written-Refines runs_through d k = staged-Refines runs_through d k
  written-Refines at_digest d k = staged-Refines at_digest d k
  written-Refines at_rename d k = staged-Refines at_rename d k
  written-Refines at_commit_create d k = staged-Refines at_commit_create d k
  written-Refines at_commit_sync d k = staged-Refines at_commit_sync d k
  written-Refines at_dir_sync d k = staged-Refines at_dir_sync d k
  written-Refines (at_commit_write m) d k = staged-Refines (at_commit_write m) d k

  pub stage_bytes-Refines :
      (stop : Stop) (d : Dir)
      → AllKept d
      → Refines sha id generation content d
          (restored sha id generation d)
          (stage_bytes sha stop id generation content d)
  unfolding stage_bytes
  stage_bytes-Refines stop d k = elim (Bool-cases (is_valid_id id)) [
    | inr bad ↦ rw bad (unseen-Refines sha id generation content d d _ (nothing-IsUnseen sha d k))
    | inl good ↦ elim (Bool-cases (is_there (get (part_path id generation) d))) [
      | inl there ↦
          rw (good, there)
            (unseen-Refines sha id generation content d d _ (nothing-IsUnseen sha d k))
      | inr free ↦ rw (good, free) (written-Refines stop d k)
    ]
  ]

  pub finalize_part-Refines :
      (stop : Stop) (expected : Option Text) (d : Dir)
      → AllKept d
      → get (part_path id generation) d ≡ some content
      → Refines sha id generation content d
          (restored sha id generation d)
          (finalize_part sha stop id generation expected d)
  unfolding finalize_part
  finalize_part-Refines stop expected d k p = elim (Bool-cases (is_valid_id id)) [
    | inr bad ↦ rw bad (unseen-Refines sha id generation content d d _ (nothing-IsUnseen sha d k))
    | inl good ↦ elim (Bool-cases (is_before_sync stop)) [
      | inl stops ↦
          rw (good, stops)
            (unseen-Refines sha id generation content d d _ (nothing-IsUnseen sha d k))
      | inr goes ↦ rw (good, goes) (committed-Refines stop expected d k p)
    ]
  ]
