-- ===== src/Staging/Lost.antt =====
-- triAI-Engine/src/staging.rs: blocks that are committed and not found again.
use mathlib.Core.Option
use carlo_one_core.Prelude.{
  ℕ, Bool, true, false, ◌≡◌, refl, ◌∙◌, inl, inr, Option, none, some, List, [], ◌∷◌, leb,
  if◌then◌else◌, Text, is_utf8, is_utf8_lone, Bool-cases,
}
use carlo_one_core.Staging.Files.{
  FileName, Dir, get, put, get-put, same_file, same_file_refl, same_file_eq,
}
use carlo_one_core.Staging.Lines.{lines}
use carlo_one_core.Staging.Record.{CommitRecord, commit_text, record_of}
use carlo_one_core.Staging.Calls.{Call}
use carlo_one_core.Staging.Durable.{perform_all, AllElsewhere}
use carlo_one_core.Staging.Untouched.{perform_all-Keeps}
use carlo_one_core.Staging.{
  at_commit_write, part_path, commit_path, is_valid_id, is_there, marked, renamed, digested,
  commit_part, written, stage_bytes,
}
use carlo_one_core.Staging.Recovery.{
  is_commit, restored, recover, recover_from, found_in, blob_of, pushed, verified,
}

some_same : {a b : List ℕ} → some a ≡ some b → a ≡ b
some_same q = cc

pushed-none : (v : Option CommitRecord) → pushed v none ≡ none
pushed-none none = refl
pushed-none (some r) = refl

dead_end :
    (a b : Bool) (v : Option CommitRecord)
    → (if a then if b then pushed v none else none else none) ≡ none
dead_end true true v = pushed-none v
dead_end true false v = refl
dead_end false b v = refl

-- A commit file that is no text ends the recovery.
recover_from-none :
    (sha : List ℕ → Text) (d : Dir) (n : FileName) (content : List ℕ) (es : Dir)
    → is_commit n.extension ≡ true
    → is_utf8 content ≡ false
    → get n es ≡ some content
    → recover_from sha d es ≡ none
unfolding recover_from get
recover_from-none sha d n content [] c u q = cc
recover_from-none sha d n content ((m, old) ∷ es) c u q = elim (Bool-cases (same_file m n)) [
  | inl same ↦
      let e : old ≡ content = some_same (rw same at q) in
      let mine : is_commit m.extension ≡ true = rw (same_file_eq m n same) c in
      let torn : is_utf8 old ≡ false = rw e u in rw (mine, torn) refl
  | inr other ↦
      let rest = recover_from-none sha d n content es c u (rw other at q) in
      let v = verified sha d (record_of (lines old)) in
      rw rest (dead_end (is_commit m.extension) (is_utf8 old) v)
]

-- What the stopped call leaves under the name of the commit file.
torn_file :
    (sha : List ℕ → Text) (c : ℕ) (cs : Text) (generation : ℕ) (content : List ℕ) (d : Dir)
    → is_valid_id (c ∷ cs) ≡ true
    → is_there (get (part_path (c ∷ cs) generation) d) ≡ false
    → get
        (commit_path (c ∷ cs) generation)
        (stage_bytes sha (at_commit_write 1) (c ∷ cs) generation content d).0
      ≡ some (c ∷ [])
unfolding stage_bytes written commit_part digested renamed marked commit_text
torn_file sha c cs generation content d good free =
    let n = commit_path (c ∷ cs) generation in
    let torn : (e : Dir) → get n (put n (c ∷ []) e) ≡ some (c ∷ []) =
      λ e. rw (get-put n n (c ∷ []) e, same_file_refl n) refl in
    rw
      (
        good,
        free,
        get-put (part_path (c ∷ cs) generation) (part_path (c ∷ cs) generation) content d,
        same_file_refl (part_path (c ∷ cs) generation),
      )
      (torn _)

recover-none :
    (sha : List ℕ → Text) (d : Dir) (n : FileName) (content : List ℕ)
    → is_commit n.extension ≡ true
    → is_utf8 content ≡ false
    → get n d ≡ some content
    → (recover sha d ≡ none) × ((i : Text) (g : ℕ) → restored sha i g d ≡ none)
unfolding recover restored found_in blob_of Option.map
recover-none sha d n content c u q =
    let stuck = recover_from-none sha d n content d c u q in (rw stuck refl, λ i g. rw stuck refl)

-- A block whose valid name does not begin with an ASCII character, with no part in the way: if its
-- staging stops after one byte of the commit file, then the recovery of the whole store fails and no
-- block of any name is restored, right after and after any later calls, which may stop anywhere,
-- that do not commit this very block again.
pub torn_commit_hides_all :
    (sha : List ℕ → Text) (c : ℕ) (cs : Text) (generation : ℕ) (content : List ℕ) (d : Dir)
    (later : List Call)
    → leb c 0x7f ≡ false
    → is_valid_id (c ∷ cs) ≡ true
    → is_there (get (part_path (c ∷ cs) generation) d) ≡ false
    → AllElsewhere (c ∷ cs) generation later
    → let torn = (stage_bytes sha (at_commit_write 1) (c ∷ cs) generation content d).0 in
      (recover sha (perform_all sha later torn) ≡ none)
      × ((i : Text) (g : ℕ) → restored sha i g (perform_all sha later torn) ≡ none)
torn_commit_hides_all sha c cs generation content d later h good free elsewhere =
    let kept = perform_all-Keeps (c ∷ cs) generation sha later _ elsewhere in
    recover-none sha _ (commit_path (c ∷ cs) generation) (c ∷ []) refl (is_utf8_lone c h)
      (kept ∙ torn_file sha c cs generation content d good free)
