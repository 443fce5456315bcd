-- ===== src/Staging/Files.antt =====
-- The staging directory of triAI-Engine/src/staging.rs: its files by name. A name is the block,
-- the generation and the extension that `format!("{block_id}.{generation}.part")` and its like put
-- together; they can be told apart, since neither of the last two parts has a dot.
use carlo_one_core.Prelude.{
  ℕ, Bool, true, false, ◌&&◌, ◌≡◌, refl, Option, none, some, List, [], ◌∷◌, ◌==◌, if◌then◌else◌,
  Text, bytes_eq, bytes_eq_iff, arith,
}

pub data Extension : Type 0 where
  part bin commit : Extension

pub record FileName : Type 0 where
  pub block_id : Text
  pub generation : ℕ
  pub extension : Extension

abbrev pub Dir : Type 0
Dir = List (FileName × List ℕ)

abbrev pub same_extension : Extension → Extension → Bool
same_extension part part = true
same_extension bin bin = true
same_extension commit commit = true
same_extension _ _ = false

unfoldable pub same_file : FileName → FileName → Bool
same_file a b =
    bytes_eq a.block_id b.block_id
    && (a.generation == b.generation && same_extension a.extension b.extension)

pub same_extension_eq : (a b : Extension) → same_extension a b ≡ true → a ≡ b
same_extension_eq part part h = refl
same_extension_eq part bin h = cc
same_extension_eq part commit h = cc
same_extension_eq bin part h = cc
same_extension_eq bin bin h = refl
same_extension_eq bin commit h = cc
same_extension_eq commit part h = cc
same_extension_eq commit bin h = cc
same_extension_eq commit commit h = refl

same_extension_refl : (a : Extension) → same_extension a a ≡ true
same_extension_refl part = refl
same_extension_refl bin = refl
same_extension_refl commit = refl

pub same_file_eq : (a b : FileName) → same_file a b ≡ true → a ≡ b
unfolding same_file
same_file_eq a b h =
    ground (arith, bytes_eq_iff a.block_id b.block_id, same_extension_eq a.extension b.extension)

pub same_file_refl : (a : FileName) → same_file a a ≡ true
unfolding same_file
same_file_refl a =
    ground (arith, bytes_eq_iff a.block_id a.block_id, same_extension_refl a.extension)

unfoldable pub get : FileName → Dir → Option (List ℕ)
get n [] = none
get n ((m, content) ∷ d) = if same_file m n then some content else get n d

-- A write replaces what is there.
unfoldable pub put : FileName → List ℕ → Dir → Dir
put n content [] = (n, content) ∷ []
put n content ((m, old) ∷ d) =
    if same_file m n then (m, content) ∷ d else (m, old) ∷ put n content d

unfoldable pub remove : FileName → Dir → Dir
remove n [] = []
remove n ((m, content) ∷ d) = if same_file m n then remove n d else (m, content) ∷ remove n d

pub same_file_comm : (a b : FileName) → same_file a b ≡ true → same_file b a ≡ true
same_file_comm a b h = rw (same_file_eq a b h) (same_file_refl b)

module _ (n m : FileName) where
  pub get-put :
      (content : List ℕ) (d : Dir)
      → get m (put n content d) ≡ (if same_file n m then some content else get m d)
  unfolding get put
  get-put content [] = refl
  get-put content ((l, old) ∷ d) = ground (
    arith,
    get-put content d,
    same_file_eq l n,
    same_file_eq n m,
    same_file_eq l m,
    same_file_refl m,
  )

  pub get-remove : (d : Dir) → get m (remove n d) ≡ (if same_file n m then none else get m d)
  unfolding get remove
  get-remove [] = ground arith
  get-remove ((l, old) ∷ d) =
      ground (arith, get-remove d, same_file_eq l n, same_file_eq n m, same_file_eq l m)
