-- ===== src/Staging/Kept.antt =====
-- triAI-Engine/src/staging.rs: what `recover` finds in a directory that the store has kept.

use carlo_one_core.Prelude.{
  ℕ, true, ◌≡◌, refl, sym, subst, Option, none, some, List, [], ◌∷◌, is_utf8, arith, Bool-cases,
  inl, inr,
}
use carlo_one_core.Staging.Files.{
  FileName, Dir, get, put, remove, get-put, get-remove, same_file, same_file_eq, same_file_comm,
}
use carlo_one_core.Staging.Lines.{lines}
use carlo_one_core.Staging.Record.{CommitRecord, record_of, IsOwn}
use carlo_one_core.Staging.Recovery.{is_commit}

-- A commit file is text, and has no record or one of its own block.
abbrev pub IsKept : FileName → List ℕ → Type 0
IsKept n content =
    is_commit n.extension ≡ true
    → (is_utf8 content ≡ true) × IsOwn n.block_id n.generation (record_of (lines content))

-- So are all of them, and each name stands for one file.
abbrev pub AllKept : Dir → Type 0
AllKept [] = Unit
AllKept ((n, content) ∷ d) = IsKept n content × (get n d ≡ none) × AllKept d

pub put-AllKept :
    (n : FileName) (content : List ℕ) (d : Dir)
    → AllKept d
    → IsKept n content
    → AllKept (put n content d)
unfolding put get
put-AllKept n content [] k h = (h, refl, tt)
put-AllKept n content ((m, old) ∷ d) k h = elim (Bool-cases (same_file m n)) [
  | inl same ↦ rw same (subst (λ x. IsKept x content) (sym (same_file_eq m n same)) h, k.1, k.2)
  | inr other ↦ rw other (
    k.0,
    ground (arith, get-put n m content d, same_file_comm n m),
    put-AllKept n content d k.2 h,
  )
]

pub remove-AllKept : (n : FileName) (d : Dir) → AllKept d → AllKept (remove n d)
unfolding remove
remove-AllKept n [] k = tt
remove-AllKept n ((m, old) ∷ d) k = elim (Bool-cases (same_file m n)) [
  | inl same ↦ rw same (remove-AllKept n d k.2)
  | inr other ↦ rw other (k.0, ground (arith, get-remove n m d), remove-AllKept n d k.2)
]

abbrev pub own_record : Option (List ℕ) → Option CommitRecord
own_record none = none
own_record (some content) = record_of (lines content)

some_same : {a b : List ℕ} → some a ≡ some b → a ≡ b
some_same q = cc

pub get-IsKept :
    (n : FileName) (content : List ℕ) (d : Dir)
    → AllKept d
    → get n d ≡ some content
    → IsKept n content
unfolding get
get-IsKept n content [] k q = cc
get-IsKept n content ((m, old) ∷ d) k q = elim (Bool-cases (same_file m n)) [
  | inl same ↦
      let e : old ≡ content = some_same (rw same at q) in
      subst (λ x. IsKept x content) (same_file_eq m n same) (subst (λ x. IsKept m x) e k.0)
  | inr other ↦ get-IsKept n content d k.2 (rw other at q)
]
