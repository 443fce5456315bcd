-- ===== src/Prelude/StrMap.antt =====
-- Rust's `HashMap<String, V>` as an association list. The order of the entries stands for the
-- order in which the program iterates, which Rust leaves open.
use Prim.Native.Nat.{ℕ, ◌+◌}
use Prim.Native.String.{String}
use mathlib.Core.Path.{◌≡◌, refl, ap}
use mathlib.Core.Logic.{inl, inr}
use mathlib.Core.Option.{Option, none, some}
use mathlib.Core.List.{List, [], ◌∷◌}
use native.Mathlib.Omega.{arith}
use text.Mathlib.Text.{◌==◌}
use text.Mathlib.TextEquality.{eq_iff}
use carlo_one_core.Prelude.Tests.{if◌then◌else◌, Bool-cases}

abbrev pub StrMap {ℓ} : Type ℓ → Type ℓ
StrMap V = List (String × V)

module _ {ℓ} {V : Type ℓ} where
  unfoldable pub get : String → StrMap V → Option V
  get k [] = none
  get k ((j, v) ∷ m) = if j == k then some v else get k m

  -- insert: the value of a key that is there is replaced.
  unfoldable pub put : String → V → StrMap V → StrMap V
  put k v [] = (k, v) ∷ []
  put k v ((j, w) ∷ m) = if j == k then (k, v) ∷ m else (j, w) ∷ put k v m

  unfoldable pub remove : String → StrMap V → StrMap V
  remove k [] = []
  remove k ((j, v) ∷ m) = let rest = remove k m in if j == k then rest else (j, v) ∷ rest

  -- The sum of a measure of the values.
  unfoldable pub total : (V → ℕ) → StrMap V → ℕ
  total f [] = 0
  total f ((j, v) ∷ m) = f v + total f m

  -- No key stands twice.
  abbrev pub IsUnique : StrMap V → Type ℓ
  IsUnique [] = Unit
  IsUnique ((j, v) ∷ m) = (get j m ≡ none) × IsUnique m

  pub get-put :
      (k j : String) (v : V) (m : StrMap V)
      → get j (put k v m) ≡ (if k == j then some v else get j m)
  unfolding get put
  get-put k j v [] = refl
  get-put k j v ((i, w) ∷ m) = ground (arith, eq_iff k j, eq_iff i k, eq_iff i j, get-put k j v m)

  pub get-remove :
      (k j : String) (m : StrMap V) → get j (remove k m) ≡ (if k == j then none else get j m)
  unfolding get remove
  get-remove k j [] = ground arith
  get-remove k j ((i, w) ∷ m) = ground (arith, eq_iff k j, eq_iff i k, eq_iff i j, get-remove k j m)

  remove-absent : (k : String) (m : StrMap V) → get k m ≡ none → remove k m ≡ m
  unfolding get remove
  remove-absent k [] h = refl
  remove-absent k ((i, w) ∷ m) h = ground (arith, remove-absent k m)

  pub put-IsUnique : (k : String) (v : V) (m : StrMap V) → IsUnique m → IsUnique (put k v m)
  unfolding put
  put-IsUnique k v [] u = (unfold get in refl, tt)
  put-IsUnique k v ((i, w) ∷ m) u = elim (Bool-cases (i == k)) [
    | inl same ↦ rw same (cc ((eq_iff i k).0 same, u.0), u.1)
    | inr other ↦
        rw other (ground (arith, get-put k i v m, eq_iff i k, eq_iff k i), put-IsUnique k v m u.1)
  ]

  pub remove-IsUnique : (k : String) (m : StrMap V) → IsUnique m → IsUnique (remove k m)
  unfolding remove
  remove-IsUnique k [] u = tt
  remove-IsUnique k ((i, w) ∷ m) u = elim (Bool-cases (i == k)) [
    | inl same ↦ rw same (remove-IsUnique k m u.1)
    | inr other ↦
        rw other (ground (arith, get-remove k i m, eq_iff i k, eq_iff k i), remove-IsUnique k m u.1)
  ]

  pub total-put-absent :
      (f : V → ℕ) (k : String) (v : V) (m : StrMap V)
      → get k m ≡ none
      → total f (put k v m) ≡ total f m + f v
  unfolding total put get
  total-put-absent f k v [] h = omega arith
  total-put-absent f k v ((i, w) ∷ m) h = ground (arith, total-put-absent f k v m)

  -- A value that is replaced by one of the same measure.
  pub total-put-same :
      (f : V → ℕ) (k : String) (v w : V) (m : StrMap V)
      → get k m ≡ some v
      → f w ≡ f v
      → total f (put k w m) ≡ total f m
  unfolding total put get
  total-put-same f k v w [] h e = cc
  total-put-same f k v w ((i, x) ∷ m) h e = ground (arith, total-put-same f k v w m, ap f)

  pub total-remove :
      (f : V → ℕ) (k : String) (v : V) (m : StrMap V)
      → IsUnique m
      → get k m ≡ some v
      → total f (remove k m) + f v ≡ total f m
  unfolding total remove get
  total-remove f k v [] u h = ground arith
  total-remove f k v ((i, w) ∷ m) u h =
      ground (arith, total-remove f k v m u.1, remove-absent k m, eq_iff i k)

  pub ruleset laws = (get-put, get-remove)
