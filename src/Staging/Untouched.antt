-- ===== src/Staging/Untouched.antt =====
-- triAI-Engine/src/staging.rs: calls for other blocks leave a commit file alone.
use carlo_one_core.Prelude.{
  ℕ, false, not, ◌≡◌, refl, ◌∙◌, inl, inr, Option, none, some, List, [], ◌∷◌, Text, arith,
  Bool-cases,
}
use carlo_one_core.Staging.Files.{FileName, Dir, get, put, remove, same_file, get-put, get-remove}
use carlo_one_core.Staging.Record.{CommitRecord}
use carlo_one_core.Staging.Blocks.{same_block}
use carlo_one_core.Staging.Calls.{
  Call, stages, finalizes, discards, opens, appends, cleans, perform, get-cleanup,
}
use carlo_one_core.Staging.Durable.{perform_all, IsElsewhere, AllElsewhere}
use carlo_one_core.Staging.{
  Stop, at_open, at_sync, at_commit_create, at_commit_write, at_commit_sync, at_dir_sync, at_write,
  part_path, bin_path, commit_path, is_valid_id, is_at_rename, is_at_digest, is_before_sync,
  is_there, refuses, marked, renamed, record_for, digested, commit_part, written, stage_bytes,
  finalize_part, discard_part, open_part_for_resume, append,
}

-- The file has the content that it had.
abbrev Keeps : FileName → Dir → Dir → Type 0
Keeps n d e = get n e ≡ get n d

put-Keeps :
    (n m : FileName) (content : List ℕ) (d e : Dir)
    → same_file m n ≡ false
    → Keeps n d e
    → Keeps n d (put m content e)
put-Keeps n m content d e other kept = get-put m n content e ∙ rw other kept

remove-Keeps : (n m : FileName) (d : Dir) → same_file m n ≡ false → Keeps n d (remove m d)
remove-Keeps n m d other = get-remove m n d ∙ rw other refl

module _ (i : Text) (g : ℕ) where
  part_differs :
      (id : Text) (generation : ℕ) → same_file (part_path id generation) (commit_path i g) ≡ false
  unfolding same_file
  part_differs id generation = ground arith

  bin_differs :
      (id : Text) (generation : ℕ) → same_file (bin_path id generation) (commit_path i g) ≡ false
  unfolding same_file
  bin_differs id generation = ground arith

  commit_differs :
      (id : Text) (generation : ℕ)
      → same_block id generation i g ≡ false
      → same_file (commit_path id generation) (commit_path i g) ≡ false
  unfolding same_file
  commit_differs id generation other = ground arith

  marked-Keeps :
      (stop : Stop) (r : CommitRecord) (d e : Dir)
      → same_block r.block_id r.generation i g ≡ false
      → Keeps (commit_path i g) d e
      → Keeps (commit_path i g) d (marked stop r e).0
  unfolding marked
  marked-Keeps at_commit_create r d e other kept = kept
  marked-Keeps (at_commit_write n) r d e other kept =
      put-Keeps _ _ _ d e (commit_differs r.block_id r.generation other) kept
  marked-Keeps at_commit_sync r d e other kept =
      put-Keeps _ _ _ d e (commit_differs r.block_id r.generation other) kept
  marked-Keeps at_dir_sync r d e other kept =
      put-Keeps _ _ _ d e (commit_differs r.block_id r.generation other) kept
  marked-Keeps _ r d e other kept =
      put-Keeps _ _ _ d e (commit_differs r.block_id r.generation other) kept

  renamed-Keeps :
      (stop : Stop) (r : CommitRecord) (content : List ℕ) (d e : Dir)
      → same_block r.block_id r.generation i g ≡ false
      → Keeps (commit_path i g) d e
      → Keeps (commit_path i g) d (renamed stop r content e).0
  unfolding renamed
  renamed-Keeps stop r content d e other kept = elim (Bool-cases (is_at_rename stop)) [
    | inl stops ↦ rw stops kept
    | inr goes ↦ rw goes (
        marked-Keeps stop r d _ other (
          put-Keeps _ _ content d _ (bin_differs r.block_id r.generation)
            (remove-Keeps _ _ e (part_differs r.block_id r.generation) ∙ kept)))
  ]

  digested-Keeps :
      (sha : List ℕ → Text) (stop : Stop) (id : Text) (generation : ℕ) (expected : Option Text)
      (d e : Dir) (found : Option (List ℕ))
      → same_block id generation i g ≡ false
      → Keeps (commit_path i g) d e
      → Keeps (commit_path i g) d (digested sha stop id generation expected e found).0
  unfolding digested
  digested-Keeps sha stop id generation expected d e none other kept = kept
  digested-Keeps sha stop id generation expected d e (some content) other kept =
      elim (Bool-cases (is_at_digest stop)) [
        | inl stops ↦ rw stops kept
        | inr goes ↦ elim (Bool-cases (refuses expected (sha content))) [
          | inl bad ↦ rw (goes, bad) (remove-Keeps _ _ e (part_differs id generation) ∙ kept)
          | inr good ↦
              rw (goes, good)
                (renamed-Keeps stop (record_for sha id generation content) content d e other kept)
        ]
      ]

  commit_part-Keeps :
      (sha : List ℕ → Text) (stop : Stop) (id : Text) (generation : ℕ) (expected : Option Text)
      (d e : Dir)
      → same_block id generation i g ≡ false
      → Keeps (commit_path i g) d e
      → Keeps (commit_path i g) d (commit_part sha stop id generation expected e).0
  unfolding commit_part
  commit_part-Keeps sha stop id generation expected d e other kept =
      digested-Keeps sha stop id generation expected d e _ other kept

  part-Keeps :
      (id : Text) (generation : ℕ) (content : List ℕ) (d : Dir)
      → Keeps (commit_path i g) d (put (part_path id generation) content d)
  part-Keeps id generation content d = put-Keeps _ _ content d d (part_differs id generation) refl

  written-Keeps :
      (sha : List ℕ → Text) (stop : Stop) (id : Text) (generation : ℕ) (content : List ℕ) (d : Dir)
      → same_block id generation i g ≡ false
      → Keeps (commit_path i g) d (written sha stop id generation content d).0
  unfolding written
  written-Keeps sha at_open id generation content d other = refl
  written-Keeps sha (at_write n) id generation content d other = part-Keeps id generation _ d
  written-Keeps sha at_sync id generation content d other = part-Keeps id generation content d
  written-Keeps sha stop id generation content d other =
      commit_part-Keeps sha stop id generation none d _ other (part-Keeps id generation content d)

  stage_bytes-Keeps :
      (sha : List ℕ → Text) (stop : Stop) (id : Text) (generation : ℕ) (content : List ℕ) (d : Dir)
      → same_block id generation i g ≡ false
      → Keeps (commit_path i g) d (stage_bytes sha stop id generation content d).0
  unfolding stage_bytes
  stage_bytes-Keeps sha stop id generation content d other =
      elim (Bool-cases (not (is_valid_id id))) [
        | inl bad ↦ rw bad refl
        | inr good ↦ elim (Bool-cases (is_there (get (part_path id generation) d))) [
          | inl there ↦ rw (good, there) refl
          | inr free ↦ rw (good, free) (written-Keeps sha stop id generation content d other)
        ]
      ]

  finalize_part-Keeps :
      (sha : List ℕ → Text) (stop : Stop) (id : Text) (generation : ℕ) (expected : Option Text)
      (d : Dir)
      → same_block id generation i g ≡ false
      → Keeps (commit_path i g) d (finalize_part sha stop id generation expected d).0
  unfolding finalize_part
  finalize_part-Keeps sha stop id generation expected d other =
      elim (Bool-cases (not (is_valid_id id))) [
        | inl bad ↦ rw bad refl
        | inr good ↦ elim (Bool-cases (is_before_sync stop)) [
          | inl stops ↦ rw (good, stops) refl
          | inr goes ↦
              rw (good, goes) (commit_part-Keeps sha stop id generation expected d d other refl)
        ]
      ]

  perform-Keeps :
      (sha : List ℕ → Text) (c : Call) (d : Dir)
      → IsElsewhere i g c
      → Keeps (commit_path i g) d (perform sha c d)
  unfolding perform discard_part open_part_for_resume append
  perform-Keeps sha (stages stop id generation content) d other =
      stage_bytes-Keeps sha stop id generation content d other
  perform-Keeps sha (finalizes stop id generation expected) d other =
      finalize_part-Keeps sha stop id generation expected d other
  perform-Keeps sha (discards id generation) d other = elim (Bool-cases (is_valid_id id)) [
    | inl good ↦ rw good (remove-Keeps _ _ d (part_differs id generation))
    | inr bad ↦ rw bad refl
  ]
  perform-Keeps sha (opens id generation) d other = elim (Bool-cases (is_valid_id id)) [
    | inl good ↦ rw good (part-Keeps id generation _ d)
    | inr bad ↦ rw bad refl
  ]
  perform-Keeps sha (appends id generation bytes) d other = part-Keeps id generation _ d
  perform-Keeps sha cleans d other = get-cleanup (commit_path i g) d refl

  pub perform_all-Keeps :
      (sha : List ℕ → Text) (cs : List Call) (d : Dir)
      → AllElsewhere i g cs
      → get (commit_path i g) (perform_all sha cs d) ≡ get (commit_path i g) d
  unfolding perform_all
  perform_all-Keeps sha [] d other = refl
  perform_all-Keeps sha (c ∷ cs) d other =
      perform_all-Keeps sha cs (perform sha c d) other.1 ∙ perform-Keeps sha c d other.0
