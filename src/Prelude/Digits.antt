-- ===== src/Prelude/Digits.antt =====
-- Decimal numbers as bytes: what `format!` writes of a `u64`, and what `parse::<u64>` reads.
use Prim.Native.Nat.{ℕ, zero, suc, ◌+◌, ◌-◌, ◌*◌, ◌/◌, ◌%◌, ◌^◌, ◌≤◌, ◌<◌}
use mathlib.Core.Path.{◌≡◌, refl, sym, ap, subst, ◌∙◌}
use mathlib.Core.Bool.{true, false, ◌&&◌}
use mathlib.Core.Option.{Option, none, some}
use mathlib.Core.List.{[], ◌∷◌}
use native.Mathlib.Omega.{arith}
use native.Mathlib.Nat.{pow-succ'}
use mathlib.Core.Logic.{inl, inr}
use carlo_one_core.Prelude.Tests.{leb, ltb, ◌==◌, if◌then◌else◌, Bool-cases}
use carlo_one_core.Prelude.Texts.{Text}

decimal_before : ℕ → ℕ → Text → Text
decimal_before zero n rest = rest
decimal_before (suc fuel) n rest =
    let more = decimal_before fuel (n / 10) ((48 + n % 10) ∷ rest) in
    if ltb n 10 then (48 + n) ∷ rest else more

-- The digits of a number below 10^20, which a `u64` is.
pub decimal_text : ℕ → Text
unfolding decimal_before
decimal_text n = decimal_before 20 n []

digits_after : ℕ → Text → Option ℕ
digits_after n [] = some n
digits_after n (c ∷ cs) =
    let rest = digits_after (n * 10 + (c - 48)) cs in if leb 48 c && leb c 57 then rest else none

u64_or_none : Option ℕ → Option ℕ
u64_or_none none = none
u64_or_none (some n) = if leb n 18446744073709551615 then some n else none

-- An optional plus sign and at least one digit.
unfoldable pub parse_u64 : Text → Option ℕ
unfolding digits_after u64_or_none
parse_u64 [] = none
parse_u64 (c ∷ []) = u64_or_none (digits_after 0 (c ∷ []))
parse_u64 (c ∷ d ∷ cs) =
    if c == b'+'
    then u64_or_none (digits_after 0 (d ∷ cs))
    else u64_or_none (digits_after 0 (c ∷ d ∷ cs))

abbrev pub AllDigits : Text → Type 0
AllDigits [] = Unit
AllDigits (c ∷ cs) = (48 ≤ c) × (c ≤ 57) × AllDigits cs

decimal_before-AllDigits :
    (fuel n : ℕ) (rest : Text) → AllDigits rest → AllDigits (decimal_before fuel n rest)
unfolding decimal_before
decimal_before-AllDigits zero n rest d = d
decimal_before-AllDigits (suc fuel) n rest d = elim (Bool-cases (ltb n 10)) [
  | inl small ↦ rw small (omega arith, ground arith, d)
  | inr large ↦ rw large (decimal_before-AllDigits fuel (n / 10) _ (omega arith, omega arith, d))
]

pub decimal_text-AllDigits : (n : ℕ) → AllDigits (decimal_text n)
unfolding decimal_text
decimal_text-AllDigits n = decimal_before-AllDigits 20 n [] tt

digits_after-decimal_before :
    (fuel n : ℕ) (rest : Text)
    → n < 10 ^ fuel
    → digits_after 0 (decimal_before fuel n rest) ≡ digits_after n rest
unfolding digits_after decimal_before
digits_after-decimal_before zero n rest h = let e : n ≡ 0 = omega arith in rw e refl
digits_after-decimal_before (suc fuel) n rest h = elim (Bool-cases (ltb n 10)) [
  | inl small ↦ let z : 0 * 10 + (48 + n - 48) ≡ n = omega arith in rw (small, z) (ground arith)
  | inr large ↦
      let p : 10 ^ suc fuel ≡ 10 * 10 ^ fuel = pow-succ' 10 fuel in
      let less : n / 10 < 10 ^ fuel = omega (arith, p) in
      let z : n / 10 * 10 + (48 + n % 10 - 48) ≡ n = omega arith in
      rw large (
        digits_after-decimal_before fuel (n / 10) ((48 + n % 10) ∷ rest) less ∙ rw z (ground arith))
]

-- There is a digit.
decimal_before_more :
    (fuel n c : ℕ) (cs : Text) → (d : ℕ) × (ds : Text) × (decimal_before fuel n (c ∷ cs) ≡ d ∷ ds)
unfolding decimal_before
decimal_before_more zero n c cs = (c, cs, refl)
decimal_before_more (suc fuel) n c cs = elim (Bool-cases (ltb n 10)) [
  | inl small ↦ (48 + n, c ∷ cs, rw small refl)
  | inr large ↦ rw large (decimal_before_more fuel (n / 10) (48 + n % 10) (c ∷ cs))
]

decimal_text_some : (n : ℕ) → (c : ℕ) × (cs : Text) × (decimal_text n ≡ c ∷ cs)
unfolding decimal_text decimal_before
decimal_text_some n = elim (Bool-cases (ltb n 10)) [
  | inl small ↦ (48 + n, [], rw small refl)
  | inr large ↦ rw large (decimal_before_more 19 (n / 10) (48 + n % 10) [])
]

-- A sign is not a digit.
parse_u64_digits :
    (c : ℕ) (cs : Text)
    → AllDigits (c ∷ cs)
    → parse_u64 (c ∷ cs) ≡ u64_or_none (digits_after 0 (c ∷ cs))
unfolding parse_u64
parse_u64_digits c [] h = refl
parse_u64_digits c (d ∷ cs) h = let e : (c == b'+') ≡ false = ground arith in rw e refl

decimal_text_read : (n : ℕ) → n < 10 ^ 20 → digits_after 0 (decimal_text n) ≡ some n
unfolding decimal_text digits_after
decimal_text_read n h = digits_after-decimal_before 20 n [] h

pub parse_u64-decimal_text :
    (n : ℕ) → n ≤ 18446744073709551615 → parse_u64 (decimal_text n) ≡ some n
unfolding u64_or_none digits_after
parse_u64-decimal_text n h =
    let (c, cs, e) = decimal_text_some n in
    let ds = subst AllDigits e (decimal_text-AllDigits n) in
    let fits : n < 10 ^ 20 = omega arith in
    let read : digits_after 0 (decimal_text n) ≡ some n = decimal_text_read n fits in
    let limit : leb n 18446744073709551615 ≡ true = ground arith in
    ap parse_u64 e
    ∙ parse_u64_digits c cs ds
    ∙ ap (λ t. u64_or_none (digits_after 0 t)) (sym e)
    ∙ ap u64_or_none read
    ∙ rw limit refl
