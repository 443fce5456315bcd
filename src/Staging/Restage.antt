-- ===== src/Staging/Restage.antt =====
-- triAI-Engine/src/staging.rs: a generation that is staged again, and a name of two lines.

use mathlib.Core.List.{append_assoc}
use carlo_one_core.Prelude.{
  ℕ, true, false, ◌≡◌, ◌≢◌, refl, sym, ap₂, ◌∙◌, inl, inr, Option, none, some, List, [], ◌∷◌, ◌++◌,
  Text, split, decimal_text, is_utf8_ascii, is_utf8, bytes_eq_iff, arith, Bool-cases,
}
use carlo_one_core.Staging.Files.{
  Dir, get, put, remove, get-put, get-remove, same_file, same_file_refl,
}
use carlo_one_core.Staging.Lines.{lines, lines-line, AllPrintable}
use carlo_one_core.Staging.Record.{
  CommitRecord, commit_text, record_of, digits_printable, line-AllAscii,
}
use carlo_one_core.Staging.Commits.{IsDigest}
use carlo_one_core.Staging.Blocks.{
  get-put_apart, put-part-IsUnseen, remove-part-IsUnseen, put-bin-IsLocal,
}
use carlo_one_core.Staging.Kept.{AllKept, own_record, put-AllKept}
use carlo_one_core.Staging.Found.{standing, restored-eq-standing}
use carlo_one_core.Staging.{
  at_commit_create, part_path, bin_path, commit_path, is_valid_id, is_there, marked, renamed,
  digested, commit_part, written, stage_bytes, record_for, done, runs_through, bin_path,
}
use carlo_one_core.Staging.Recovery.{restored, blob_matches}

same_digest :
    (sha : List ℕ → Text) (r : CommitRecord) (old content : List ℕ)
    → blob_matches sha r (some old) ≡ true
    → blob_matches sha r (some content) ≡ true
    → sha content ≡ sha old
unfolding blob_matches
same_digest sha r old content p q =
    (bytes_eq_iff (sha content) r.sha256).0 (ground arith)
    ∙ sym ((bytes_eq_iff (sha old) r.sha256).0 (ground arith))

matches_old :
    (sha : List ℕ → Text) (r : CommitRecord) (blob : Option (List ℕ)) (old : List ℕ)
    → standing sha (some r) blob ≡ some old
    → blob_matches sha r (some old) ≡ true
matches_old sha r blob old e = elim (Bool-cases (blob_matches sha r blob)) [
  | inl good ↦ rw (rw good at e) at good
  | inr bad ↦ cc
]

-- The commit record of the old bytes does not stand for bytes of another digest.
standing_changed :
    (sha : List ℕ → Text) (o : Option CommitRecord) (blob : Option (List ℕ)) (old content : List ℕ)
    → standing sha o blob ≡ some old
    → sha content ≢ sha old
    → standing sha o (some content) ≡ none
standing_changed sha none blob old content e apart = refl
standing_changed sha (some r) blob old content e apart =
    elim (Bool-cases (blob_matches sha r (some content))) [
      | inl good ↦
          absurd (apart (same_digest sha r old content (matches_old sha r blob old e) good))
      | inr bad ↦ rw bad refl
    ]

-- The files when the bytes have their name and there is no commit file for them yet.
abbrev moved : Text → ℕ → List ℕ → Dir → Dir
moved id generation content d =
    put (bin_path id generation) content
      (remove (part_path id generation) (put (part_path id generation) content d))

get-moved :
    (id : Text) (generation : ℕ) (content : List ℕ) (d : Dir)
    → (get (commit_path id generation) (moved id generation content d)
        ≡ get (commit_path id generation) d)
      × (get (bin_path id generation) (moved id generation content d) ≡ some content)
unfolding same_file
get-moved id generation content d =
    let c = commit_path id generation in
    let b = bin_path id generation in
    let p = part_path id generation in
    let apart : (same_file b c ≡ false) × (same_file p c ≡ false) = ground arith in
    (
      get-put_apart b c content _ apart.0
          ∙ (get-remove p c (put p content d) ∙ rw apart.1 refl)
          ∙ get-put_apart p c content d apart.1,
      get-put b b content _ ∙ rw (same_file_refl b) refl,
    )

moved-AllKept :
    (sha : List ℕ → Text) (id : Text) (generation : ℕ) (content : List ℕ) (d : Dir)
    → AllKept d
    → AllKept (moved id generation content d)
moved-AllKept sha id generation content d k =
    let p = put-part-IsUnseen sha id generation d k content in
    let r = remove-part-IsUnseen sha id generation _ p.kept in
    (put-bin-IsLocal sha id generation _ r.kept content).kept

-- A generation that is staged again, under a valid name and with no part in the way, with bytes of
-- another digest: if the call stops between the rename and the commit file, then the block that
-- could be restored before, from a directory that the store has kept, is lost.
pub restage_loses :
    (sha : List ℕ → Text) (id : Text) (generation : ℕ) (old content : List ℕ) (d : Dir)
    → AllKept d
    → is_valid_id id ≡ true
    → is_there (get (part_path id generation) d) ≡ false
    → restored sha id generation d ≡ some old
    → sha content ≢ sha old
    → restored sha id generation (stage_bytes sha at_commit_create id generation content d).0 ≡ none
unfolding stage_bytes written commit_part digested renamed marked
restage_loses sha id generation old content d k good free before apart =
    rw
      (
        good,
        free,
        get-put (part_path id generation) (part_path id generation) content d,
        same_file_refl (part_path id generation),
      )
      (let found = get-moved id generation content d in
        restored-eq-standing sha id generation _ (moved-AllKept sha id generation content d k)
        ∙ ap₂ (λ c b. standing sha (own_record c) b) found.0 found.1
        ∙ standing_changed sha (own_record (get (commit_path id generation) d)) _ old content
            (sym (restored-eq-standing sha id generation d k) ∙ before) apart)

-- Five lines make no record.
newline_no_record :
    (a b : Text) (r : CommitRecord)
    → AllPrintable a
    → AllPrintable b
    → r.block_id ≡ a ++ 10 ∷ b
    → AllPrintable r.sha256
    → record_of (lines (commit_text r)) ≡ none
unfolding commit_text record_of lines split
newline_no_record a b r pa pb e ps =
    rw
      (
        e,
        append_assoc a (10 ∷ b),
        lines-line a _ pa,
        lines-line b _ pb,
        lines-line (decimal_text r.generation) _ (digits_printable r.generation),
        lines-line (decimal_text r.bytes) _ (digits_printable r.bytes),
        lines-line r.sha256 [] ps,
      )
      refl

newline-ascii :
    (a b : Text) (r : CommitRecord)
    → AllPrintable a
    → AllPrintable b
    → r.block_id ≡ a ++ 10 ∷ b
    → AllPrintable r.sha256
    → is_utf8 (commit_text r) ≡ true
unfolding commit_text
newline-ascii a b r pa pb e ps =
    rw (e, append_assoc a (10 ∷ b))
      (is_utf8_ascii _ (
        line-AllAscii a _ pa (
          line-AllAscii b _ pb (
            line-AllAscii (decimal_text r.generation) _ (digits_printable r.generation) (
              line-AllAscii (decimal_text r.bytes) _ (digits_printable r.bytes)
                (line-AllAscii r.sha256 [] ps tt))))))

-- A block whose name has a newline is committed, and is not found again.
pub newline_id_lost :
    (sha : List ℕ → Text) (a b : Text) (generation : ℕ) (content : List ℕ) (d : Dir)
    → IsDigest sha
    → AllKept d
    → AllPrintable a
    → AllPrintable b
    → is_valid_id (a ++ 10 ∷ b) ≡ true
    → is_there (get (part_path (a ++ 10 ∷ b) generation) d) ≡ false
    → ((stage_bytes sha runs_through (a ++ 10 ∷ b) generation content d).1
        ≡ done (record_for sha (a ++ 10 ∷ b) generation content))
      × (restored sha
            (a ++ 10 ∷ b)
            generation
            (stage_bytes sha runs_through (a ++ 10 ∷ b) generation content d).0
          ≡ none)
unfolding stage_bytes written commit_part digested renamed marked IsDigest
newline_id_lost sha a b generation content d hex k pa pb good free =
    let r = record_for sha (a ++ 10 ∷ b) generation content in
    let c = commit_path r.block_id generation in
    let lost = newline_no_record a b r pa pb refl (hex content) in
    let kept =
      put-AllKept c (commit_text r) _ (moved-AllKept sha r.block_id generation content d k)
        (λ h. (newline-ascii a b r pa pb refl (hex content), rw lost tt)) in
    rw
      (
        good,
        free,
        get-put (part_path r.block_id generation) (part_path r.block_id generation) content d,
        same_file_refl (part_path r.block_id generation),
      )
      (
        refl,
        restored-eq-standing sha r.block_id generation _ kept
            ∙ rw
                (
                  get-put c c (commit_text r) (moved r.block_id generation content d),
                  same_file_refl c,
                  lost,
                )
                refl,
      )
