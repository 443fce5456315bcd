-- ===== src/Planner/Hash.antt =====
-- triAI-Engine/src/planner.rs, `StableHash`: four 64-bit lanes, each fed every byte with the
-- lane's index added to it. Ids are printed as hexadecimal digits.
use carlo_one_core.Prelude.{
  ℕ, zero, suc, ◌+◌, ◌*◌, ◌/◌, ◌%◌, ◌^◌, ◌≡◌, refl, String, List, [], ◌∷◌, ◌++◌, bit_xor, arith,
  ltb, if◌then◌else◌, wrap64, length, length-append, utf8,
}

-- The four words of `state`.
pub record StableHash : Type 0 where
  pub h0 : ℕ
  pub h1 : ℕ
  pub h2 : ℕ
  pub h3 : ℕ

abbrev pub prime : ℕ
prime = 0x0000_0100_0000_01b3

unfoldable pub new : StableHash
new = record {
  h0 = 0xcbf2_9ce4_8422_2325;
  h1 = 0x8422_2325_cbf2_9ce4;
  h2 = 0x9e37_79b9_7f4a_7c15;
  h3 = 0x517c_c1b7_2722_0a95;
}

-- The inner loop over the bytes, for the lane `index`.
feed : ℕ → List ℕ → ℕ → ℕ
feed index [] state = state
feed index (byte ∷ bytes) state =
    feed index bytes (wrap64 (bit_xor state (wrap64 (byte + index)) * prime))

feed_lanes : List ℕ → StableHash → StableHash
unfolding feed
feed_lanes bytes h = record {
  h0 = feed 0 bytes h.h0;
  h1 = feed 1 bytes h.h1;
  h2 = feed 2 bytes h.h2;
  h3 = feed 3 bytes h.h3;
}

-- `n` bytes of a number, the lowest first.
le_bytes : ℕ → ℕ → List ℕ
le_bytes zero v = []
le_bytes (suc n) v = (v % 256) ∷ le_bytes n (v / 256)

unfoldable pub write_u64 : ℕ → StableHash → StableHash
unfolding feed_lanes le_bytes
write_u64 value = feed_lanes (le_bytes 8 value)

unfoldable pub write_bytes : List ℕ → StableHash → StableHash
unfolding write_u64 feed_lanes
write_bytes bytes h = feed_lanes bytes (write_u64 (length bytes) h)

unfoldable pub write_str : String → StableHash → StableHash
unfolding write_bytes utf8
write_str value = write_bytes (utf8 value)

hex_digit : ℕ → ℕ
hex_digit d = if ltb d 10 then d + 48 else d + 87

-- The lowest `n` hexadecimal digits, the highest of them first.
hex_digits : ℕ → ℕ → List ℕ
unfolding hex_digit
hex_digits zero v = []
hex_digits (suc n) v = hex_digit (v / 16 ^ n % 16) ∷ hex_digits n v

-- `{:016x}` of a `u64`, as ASCII codes.
unfoldable pub hex16 : ℕ → List ℕ
unfolding hex_digits
hex16 v = hex_digits 16 v

-- `{:016x}` of the four words in turn.
unfoldable pub hex_state : StableHash → List ℕ
unfolding hex16
hex_state h = hex16 h.h0 ++ (hex16 h.h1 ++ (hex16 h.h2 ++ hex16 h.h3))

length-hex_digits : (n v : ℕ) → length (hex_digits n v) ≡ n
unfolding hex_digits
length-hex_digits zero v = refl
length-hex_digits (suc n) v = omega (arith, length-hex_digits n v)

pub length-hex16 : (v : ℕ) → length (hex16 v) ≡ 16
unfolding hex16
length-hex16 v = length-hex_digits 16 v

pub length-hex_state : (h : StableHash) → length (hex_state h) ≡ 64
unfolding hex_state
length-hex_state h = omega (
  arith,
  length-append (hex16 h.h0) (hex16 h.h1 ++ (hex16 h.h2 ++ hex16 h.h3)),
  length-append (hex16 h.h1) (hex16 h.h2 ++ hex16 h.h3),
  length-append (hex16 h.h2) (hex16 h.h3),
  length-hex16 h.h0,
  length-hex16 h.h1,
  length-hex16 h.h2,
  length-hex16 h.h3,
)
