-- ===== src/Prelude/Float.antt =====
-- Rust's `f64`, which has no model in the native numbers: a parameter of the definitions that
-- compute with it. The record has no laws; a theorem that needs one says so.
use Prim.Native.Nat.{ℕ, ◌*◌, ◌/◌, ◌+◌, ◌-◌, ◌^◌}
use mathlib.Core.Bool.{Bool, true}
use carlo_one_core.Prelude.Tests.{ltb, leb}

pub record F64 : Type 1 where
  pub Carrier : Type 0
  -- The literal m / 10 ^ k.
  pub lit : ℕ → ℕ → Carrier
  -- `as f64` from an unsigned integer.
  pub of_u64 : ℕ → Carrier
  -- `as u64` and `as u32`, which cut off and saturate.
  pub to_u64 : Carrier → ℕ
  pub to_u32 : Carrier → ℕ
  pub floor : Carrier → Carrier
  pub add : Carrier → Carrier → Carrier
  pub sub : Carrier → Carrier → Carrier
  pub mul : Carrier → Carrier → Carrier
  pub div : Carrier → Carrier → Carrier
  -- a < b and a <= b; b > a is a < b.
  pub lt : Carrier → Carrier → Bool
  pub le : Carrier → Carrier → Bool
  pub is_finite : Carrier → Bool

-- Numbers of thousandths, none of them negative: an `f64` to run the definitions with.
abbrev pub thousandths : F64
thousandths = record {
  Carrier = ℕ;
  lit = λ m k. m * 1000 / 10 ^ k;
  of_u64 = λ n. n * 1000;
  to_u64 = λ x. x / 1000;
  to_u32 = λ x. x / 1000;
  floor = λ x. x / 1000 * 1000;
  add = λ x y. x + y;
  sub = λ x y. x - y;
  mul = λ x y. x * y / 1000;
  div = λ x y. x * 1000 / y;
  lt = ltb;
  le = leb;
  is_finite = λ _. true;
}
