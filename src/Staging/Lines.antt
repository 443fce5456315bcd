-- ===== src/Staging/Lines.antt =====
-- `str::lines`, on what triAI-Engine/src/staging.rs writes.
use mathlib.Core.List.{append-nil}
use carlo_one_core.Prelude.{
  length, take-append, take_all, ℕ, zero, suc, ◌-◌, ◌≤◌, ◌<◌, ◌≡◌, refl, ◌∙◌, ap, ◌⊎◌, inl, inr,
  List, [], ◌∷◌, ◌++◌, ◌==◌, leb, if◌then◌else◌, Text, split, take, arith, Bool-cases,
}

-- A line without the carriage return before its end.
unfoldable pub without_return : Text → Text
without_return [] = []
without_return (c ∷ []) = if c == 13 then [] else c ∷ []
without_return (c ∷ d ∷ cs) = c ∷ without_return (d ∷ cs)

-- What stands after the last newline is a line if it is not empty, and is kept as it is.
unfoldable pub terminated : List Text → List Text
unfolding without_return
terminated [] = []
terminated ([] ∷ []) = []
terminated ((c ∷ cs) ∷ []) = (c ∷ cs) ∷ []
terminated (line ∷ more ∷ parts) = without_return line ∷ terminated (more ∷ parts)

unfoldable pub lines : Text → List Text
unfolding terminated
lines text = terminated (split 10 text)

-- Printable ASCII, which has neither a newline nor a carriage return.
abbrev pub AllPrintable : Text → Type 0
AllPrintable [] = Unit
AllPrintable (c ∷ cs) = (32 ≤ c) × (c < 127) × AllPrintable cs

without_return_lem : (t : Text) → AllPrintable t → without_return t ≡ t
unfolding without_return
without_return_lem [] h = refl
without_return_lem (c ∷ []) h = ground arith
without_return_lem (c ∷ d ∷ cs) h = ap (λ t. c ∷ t) (without_return_lem (d ∷ cs) (h.2))

split-line : (a rest : Text) → AllPrintable a → split 10 (a ++ 10 ∷ rest) ≡ a ∷ split 10 rest
unfolding split
split-line [] rest h = refl
split-line (c ∷ cs) rest h = ground (arith, split-line cs rest h.2)

split_printable : (a : Text) → AllPrintable a → split 10 a ≡ a ∷ []
unfolding split
split_printable [] h = refl
split_printable (c ∷ cs) h = ground (arith, split_printable cs h.2)

pub split_some : (t : Text) → (p : Text) × (ps : List Text) × (split 10 t ≡ p ∷ ps)
unfolding split
split_some [] = ([], [], refl)
split_some (c ∷ cs) = elim (Bool-cases (c == 10)) [
  | inl newline ↦ ([], split 10 cs, rw newline refl)
  | inr other ↦ let (p, ps, e) = split_some cs in (c ∷ p, ps, rw (other, e) refl)
]

-- A line that ends is the first one.
pub lines-line : (a rest : Text) → AllPrintable a → lines (a ++ 10 ∷ rest) ≡ a ∷ lines rest
unfolding lines
lines-line a rest h =
    let (p, ps, e) = split_some rest in
    rw (split-line a rest h, e) (ap (λ t. t ∷ terminated (p ∷ ps)) (without_return_lem a h))

-- What does not end is one line or none.
pub lines_printable :
    (a : Text) → AllPrintable a → (lines a ≡ []) ⊎ ((l : Text) × (lines a ≡ l ∷ []))
unfolding lines split
lines_printable [] h = inl refl
lines_printable (c ∷ cs) h = inr (c ∷ cs, rw (split_printable (c ∷ cs) h) refl)

pub take-AllPrintable : (n : ℕ) (a : Text) → AllPrintable a → AllPrintable (take n a)
take-AllPrintable zero a h = tt
take-AllPrintable (suc n) [] h = tt
take-AllPrintable (suc n) (c ∷ cs) h = (h.0, h.1, take-AllPrintable n cs h.2)

abbrev pub AtMostOne : List Text → Type 0
AtMostOne ls = (ls ≡ []) ⊎ ((l : Text) × (ls ≡ l ∷ []))

-- A text that is cut off in its first line, or after it.
pub lines-take :
    (n : ℕ) (a rest : Text)
    → AllPrintable a
    → AtMostOne (lines (take n (a ++ 10 ∷ rest)))
      ⊎ ((m : ℕ) × (lines (take n (a ++ 10 ∷ rest)) ≡ a ∷ lines (take m rest)))
lines-take n a rest h = elim (Bool-cases (leb n (length a))) [
  | inl short ↦
      let z : n - length a ≡ 0 = ground arith in
      rw (take-append n a (10 ∷ rest), z, append-nil)
        (inl (lines_printable (take n a) (take-AllPrintable n a h)))
  | inr long ↦
      let z : n - length a ≡ suc (n - length a - 1) = ground arith in
      let whole : take n a ≡ a = take_all n a (ground arith) in
      inr (
        n - length a - 1,
        ap lines (
              take-append n a (10 ∷ rest)
              ∙ ap (λ k. take n a ++ take k (10 ∷ rest)) z
              ∙ ap (λ t. t ++ 10 ∷ take (n - length a - 1) rest) whole)
            ∙ lines-line a (take (n - length a - 1) rest) h,
      )
]

take_nil : (n : ℕ) → take {A = ℕ} n [] ≡ []
take_nil zero = refl
take_nil (suc n) = refl

pub lines-take_last :
    (n : ℕ) (a : Text) → AllPrintable a → AtMostOne (lines (take n (a ++ 10 ∷ [])))
unfolding lines split
lines-take_last n a h = elim (lines-take n a [] h) [
  | inl few ↦ few
  | inr (m, e) ↦ inr (a, e ∙ rw (take_nil m) refl)
]
