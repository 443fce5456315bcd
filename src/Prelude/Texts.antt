-- ===== src/Prelude/Texts.antt =====
-- Texts as lists of bytes: the functions of Rust's `str` that the program uses.
use Prim.Native.Nat.{ℕ, zero, suc, ◌+◌, ◌-◌, ◌*◌, ◌/◌, ◌%◌}
use mathlib.Core.Path.{◌≡◌, refl, ap, ◌∙◌}
use mathlib.Core.Logic.{◌↔◌}
use mathlib.Core.Bool.{Bool, true, false, ◌&&◌, ◌||◌}
use mathlib.Core.Option.{Option, none, some}
use mathlib.Core.List.{List, [], ◌∷◌, map}
use Prim.Native.String.{String}
use native.Mathlib.Omega.{arith}
use carlo_one_core.Prelude.Tests.{leb, ltb, ◌==◌, if◌then◌else◌}
use carlo_one_core.Prelude.Lists.{codes}

abbrev pub Text : Type 0
Text = List ℕ

unfoldable pub bytes_eq : Text → Text → Bool
bytes_eq [] [] = true
bytes_eq [] (y ∷ ys) = false
bytes_eq (x ∷ xs) [] = false
bytes_eq (x ∷ xs) (y ∷ ys) = x == y && bytes_eq xs ys

pub bytes_eq_iff : (a b : Text) → (bytes_eq a b ≡ true) ↔ (a ≡ b)
unfolding bytes_eq
bytes_eq_iff [] [] = ((λ _. refl), (λ _. refl))
bytes_eq_iff [] (y ∷ ys) = ((λ e. cc), (λ e. cc))
bytes_eq_iff (x ∷ xs) [] = ((λ e. cc), (λ e. cc))
bytes_eq_iff (x ∷ xs) (y ∷ ys) = ground (arith, bytes_eq_iff xs ys)

unfoldable pub to_ascii_lowercase : Text → Text
to_ascii_lowercase = map (λ c. if leb b'A' c && leb c b'Z' then c + 32 else c)

unfoldable pub starts_with : Text → Text → Bool
starts_with text [] = true
starts_with [] (p ∷ ps) = false
starts_with (c ∷ cs) (p ∷ ps) = c == p && starts_with cs ps

unfoldable pub contains : Text → Text → Bool
unfolding starts_with
contains [] pattern = starts_with [] pattern
contains (c ∷ cs) pattern = starts_with (c ∷ cs) pattern || contains cs pattern

unfoldable pub contains_any : Text → List String → Bool
unfolding contains
contains_any text [] = false
contains_any text (marker ∷ markers) = contains text (codes marker) || contains_any text markers

unfoldable pub ends_with : Text → Text → Bool
unfolding bytes_eq
ends_with [] pattern = bytes_eq [] pattern
ends_with (c ∷ cs) pattern = bytes_eq (c ∷ cs) pattern || ends_with cs pattern

-- The first part, and the others, once the rest is split.
prepend : ℕ → List Text → List Text
prepend c [] = (c ∷ []) ∷ []
prepend c (part ∷ parts) = (c ∷ part) ∷ parts

-- split by one byte; there is always a part.
unfoldable pub split : ℕ → Text → List Text
unfolding prepend
split at [] = [] ∷ []
split at (c ∷ cs) = let rest = split at cs in if c == at then [] ∷ rest else prepend c rest

digits : ℕ → Text → Option ℕ
digits n [] = some n
digits n (c ∷ cs) =
    let rest = digits (n * 10 + (c - b'0')) cs in if leb b'0' c && leb c b'9' then rest else none

u32_or_none : Option ℕ → Option ℕ
u32_or_none none = none
u32_or_none (some n) = if leb n 4294967295 then some n else none

-- parse::<u32>: an optional plus sign and at least one digit.
unfoldable pub parse_u32 : Text → Option ℕ
unfolding digits u32_or_none
parse_u32 [] = none
parse_u32 (c ∷ []) = u32_or_none (digits 0 (c ∷ []))
parse_u32 (c ∷ d ∷ cs) =
    if c == b'+' then u32_or_none (digits 0 (d ∷ cs)) else u32_or_none (digits 0 (c ∷ d ∷ cs))

-- What a first byte of a character asks for: how many bytes follow, and the range of the next one.
lead : ℕ → Option (ℕ × ℕ × ℕ)
lead b =
    if leb b 0x7f
    then some (0, 0, 0)
    else if leb 0xc2 b && leb b 0xdf
    then some (1, 0x80, 0xbf)
    else if b == 0xe0
    then some (2, 0xa0, 0xbf)
    else if b == 0xed
    then some (2, 0x80, 0x9f)
    else if leb 0xe1 b && leb b 0xef
    then some (2, 0x80, 0xbf)
    else if b == 0xf0
    then some (3, 0x90, 0xbf)
    else if leb 0xf1 b && leb b 0xf3
    then some (3, 0x80, 0xbf)
    else if b == 0xf4
    then some (3, 0x80, 0x8f)
    else none

is_utf8_from : Option (ℕ × ℕ × ℕ) → Text → Bool
unfolding lead
is_utf8_from none bytes = false
is_utf8_from (some (zero, lo, hi)) [] = true
is_utf8_from (some (suc n, lo, hi)) [] = false
is_utf8_from (some (zero, lo, hi)) (b ∷ bs) = is_utf8_from (lead b) bs
is_utf8_from (some (suc n, lo, hi)) (b ∷ bs) =
    leb lo b && (leb b hi && is_utf8_from (some (n, 0x80, 0xbf)) bs)

-- String::from_utf8 accepts the bytes.
unfoldable pub is_utf8 : Text → Bool
unfolding is_utf8_from
is_utf8 bytes = is_utf8_from (some (0, 0, 0)) bytes

unfoldable pub joined : String → String → String
joined String.[] t = t
joined (String.◌∷◌ c s) t = String.◌∷◌ c (joined s t)

digit_text : ℕ → String
digit_text n =
    if n == 0
    then "0"
    else if n == 1
    then "1"
    else if n == 2
    then "2"
    else if n == 3
    then "3"
    else if n == 4
    then "4"
    else if n == 5
    then "5"
    else if n == 6
    then "6"
    else if n == 7
    then "7"
    else if n == 8
    then "8"
    else "9"

decimal_onto : ℕ → ℕ → String → String
unfolding digit_text joined
decimal_onto zero n rest = rest
decimal_onto (suc fuel) n rest =
    let here = joined (digit_text (n % 10)) rest in
    let before = decimal_onto fuel (n / 10) here in if ltb n 10 then here else before

-- The decimal digits of a number below 10^20, which a `u64` is.
unfoldable pub decimal : ℕ → String
unfolding decimal_onto
decimal n = decimal_onto 20 n ""

-- ASCII reads as itself.
abbrev pub AllAscii : Text → Type 0
AllAscii [] = Unit
AllAscii (c ∷ cs) = (leb c 0x7f ≡ true) × AllAscii cs

is_utf8_from_ascii :
    (t : Text) (lo hi : ℕ) → AllAscii t → is_utf8_from (some (zero, lo, hi)) t ≡ true
unfolding is_utf8_from lead
is_utf8_from_ascii [] lo hi h = refl
is_utf8_from_ascii (c ∷ cs) lo hi h =
    let one : lead c ≡ some (0, 0, 0) = rw h.0 refl in
    ap (λ l. is_utf8_from l cs) one ∙ is_utf8_from_ascii cs 0 0 h.1

pub is_utf8_ascii : (t : Text) → AllAscii t → is_utf8 t ≡ true
unfolding is_utf8
is_utf8_ascii t h = is_utf8_from_ascii t 0 0 h

-- A first byte above ASCII cannot stand alone.
pub is_utf8_lone : (c : ℕ) → leb c 0x7f ≡ false → is_utf8 (c ∷ []) ≡ false
unfolding is_utf8 is_utf8_from lead
is_utf8_lone c h = ground arith
