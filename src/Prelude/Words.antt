-- ===== src/Prelude/Words.antt =====
-- Rust's unsigned integers as native numbers: the saturating operations, and the wrap of `u32`
-- and `u64` (a release build does not trap an overflow).
use Prim.Native.Nat.{ℕ, ◌+◌, ◌*◌, ◌/◌, ◌%◌, ◌≤◌, min}
use native.Mathlib.Omega.{arith}
use native.Mathlib.Nat.{mul-le-mul}
use carlo_one_core.Prelude.Tests.{ltb, if◌then◌else◌}

abbrev pub u32_mod : ℕ
u32_mod = 4294967296

abbrev pub u64_mod : ℕ
u64_mod = 18446744073709551616

abbrev pub u64_max : ℕ
u64_max = 18446744073709551615

abbrev pub wrap32 : ℕ → ℕ
wrap32 n = n % u32_mod

abbrev pub wrap64 : ℕ → ℕ
wrap64 n = n % u64_mod

-- u64::saturating_add; saturating_sub is `-` on ℕ.
abbrev pub sat_add : ℕ → ℕ → ℕ
sat_add a b = min (a + b) u64_max

-- u64::saturating_mul
abbrev pub sat_mul : ℕ → ℕ → ℕ
sat_mul a b = min (a * b) u64_max

-- u64::div_ceil, for a divisor that is not 0.
abbrev pub div_ceil : ℕ → ℕ → ℕ
div_ceil a b = a / b + (if ltb 0 (a % b) then 1 else 0)

pub sat_mul_mono : (a b c d : ℕ) → a ≤ c → b ≤ d → sat_mul a b ≤ sat_mul c d
sat_mul_mono a b c d h k = omega (arith, mul-le-mul h k)
