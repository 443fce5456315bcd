-- ===== src/Staging/Parts.antt =====
-- triAI-Engine/src/staging.rs: what the client that fills a part relies on.
use carlo_one_core.Prelude.{
  ℕ, true, ◌≡◌, refl, ◌∙◌, ◌⊎◌, inl, inr, none, some, List, ◌++◌, Text, length, Bool-cases,
}
use carlo_one_core.Staging.Files.{Dir, get, put, get-put, get-remove, same_file_refl}
use carlo_one_core.Staging.Kept.{AllKept}
use carlo_one_core.Staging.Blocks.{put-part-IsUnseen}
use carlo_one_core.Staging.{
  part_path, is_valid_id, discard_part, open_part_for_resume, append, or_empty,
}

module _ (id : Text) (generation : ℕ) where
  pub get-append :
      (bytes old : List ℕ) (d : Dir)
      → get (part_path id generation) d ≡ some old
      → get (part_path id generation) (append id generation bytes d) ≡ some (old ++ bytes)
  unfolding append
  get-append bytes old d q =
      get-put (part_path id generation) (part_path id generation) _ d
      ∙ rw (same_file_refl (part_path id generation), q) refl

  pub append-AllKept :
      (sha : List ℕ → Text) (bytes : List ℕ) (d : Dir)
      → AllKept d
      → AllKept (append id generation bytes d)
  unfolding append
  append-AllKept sha bytes d k = (put-part-IsUnseen sha id generation d k _).kept

  -- What `open_part_for_resume` gives, for a valid name: the part holds what it held, and its
  -- length is told.
  pub record IsOpened (sha : List ℕ → Text) (d e : Dir) : Type 0 where
    pub valid : is_valid_id id ≡ true
    pub told :
        open_part_for_resume id generation d
        ≡ some (e, length (or_empty (get (part_path id generation) d)))
    pub holds : get (part_path id generation) e ≡ some (or_empty (get (part_path id generation) d))
    pub keeps : AllKept d → AllKept e

  pub open_part_for_resume_lem :
      (sha : List ℕ → Text) (d : Dir)
      → (open_part_for_resume id generation d ≡ none) ⊎ ((e : Dir) × IsOpened sha d e)
  unfolding open_part_for_resume
  open_part_for_resume_lem sha d = elim (Bool-cases (is_valid_id id)) [
    | inr bad ↦ inl (rw bad refl)
    | inl good ↦
        let old = or_empty (get (part_path id generation) d) in
        inr (
          put (part_path id generation) old d,
          record {
            valid = good;
            told = rw good refl;
            holds =
                get-put (part_path id generation) (part_path id generation) old d
                ∙ rw (same_file_refl (part_path id generation)) refl;
            keeps = λ k. (put-part-IsUnseen sha id generation d k old).kept;
          },
        )
  ]

  pub open_part_for_resume_valid :
      (sha : List ℕ → Text) (d : Dir) → is_valid_id id ≡ true → (e : Dir) × IsOpened sha d e
  unfolding open_part_for_resume
  open_part_for_resume_valid sha d good = elim (open_part_for_resume_lem sha d) [
    | inl e ↦ cc
    | inr opened ↦ opened
  ]

  -- The bytes that a discarded part held are gone.
  pub get-discard_part :
      (d : Dir)
      → is_valid_id id ≡ true
      → get (part_path id generation) (discard_part id generation d) ≡ none
  unfolding discard_part
  get-discard_part d good =
      rw
        (
          good,
          get-remove (part_path id generation) (part_path id generation) d,
          same_file_refl (part_path id generation),
        )
        refl
