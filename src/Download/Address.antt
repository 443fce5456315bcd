-- ===== src/Download/Address.antt =====
-- triAI-Engine/src/download.rs: the addresses that a download may connect to. An IPv4 address is
-- its four octets, an IPv6 address its eight segments; the tests that the standard library has for
-- them are written out.
pub mod Routable
mod Tests
use carlo_one_core.Prelude.{
  ℕ, ◌+◌, ◌*◌, ◌/◌, ◌%◌, ◌<◌, Bool, true, false, not, ◌&&◌, ◌||◌, ◌≡◌, refl, Option, none, some,
  List, [], ◌∷◌, leb, ltb, ◌==◌, if◌then◌else◌, arith,
}

pub record Ipv4Addr : Type 0 where
  pub a : ℕ
  pub b : ℕ
  pub c : ℕ
  pub d : ℕ

is_private : Ipv4Addr → Bool
is_private ip =
    ip.a == 10 || (ip.a == 172 && leb 16 ip.b && leb ip.b 31 || ip.a == 192 && ip.b == 168)

is_broadcast : Ipv4Addr → Bool
is_broadcast ip = ip.a == 255 && ip.b == 255 && ip.c == 255 && ip.d == 255

is_documentation : Ipv4Addr → Bool
is_documentation ip =
    ip.a == 192 && ip.b == 0 && ip.c == 2
    || (ip.a == 198 && ip.b == 51 && ip.c == 100 || ip.a == 203 && ip.b == 0 && ip.c == 113)

is_unspecified : Ipv4Addr → Bool
is_unspecified ip = ip.a == 0 && ip.b == 0 && ip.c == 0 && ip.d == 0

-- The match on the octets.
special_octets : Ipv4Addr → Bool
special_octets ip =
    ip.a == 0
    || (ip.a == 100 && leb 64 ip.b && leb ip.b 127
        || (ip.a == 192 && ip.b == 0 && ip.c == 0
            || (ip.a == 192 && ip.b == 88 && ip.c == 99
                || (ip.a == 198 && (ip.b == 18 || ip.b == 19) || leb 240 ip.a && leb ip.a 255))))

unfoldable pub ipv4_is_globally_routable : Ipv4Addr → Bool
unfolding is_private is_broadcast is_documentation is_unspecified special_octets
ipv4_is_globally_routable ip =
    if is_private ip
      || (ip.a == 127
          || (ip.a == 169 && ip.b == 254
              || (is_broadcast ip
                  || (is_documentation ip || (is_unspecified ip || leb 224 ip.a && leb ip.a 239)))))
    then false
    else not (special_octets ip)

pub record Ipv6Addr : Type 0 where
  pub s0 : ℕ
  pub s1 : ℕ
  pub s2 : ℕ
  pub s3 : ℕ
  pub s4 : ℕ
  pub s5 : ℕ
  pub s6 : ℕ
  pub s7 : ℕ

-- The first seven segments are 0.
starts_zero : Ipv6Addr → Bool
starts_zero ip =
    ip.s0 == 0
    && (ip.s1 == 0 && (ip.s2 == 0 && (ip.s3 == 0 && (ip.s4 == 0 && (ip.s5 == 0 && ip.s6 == 0)))))

to_ipv4_mapped : Ipv6Addr → Option Ipv4Addr
to_ipv4_mapped ip =
    if ip.s0 == 0 && (ip.s1 == 0 && (ip.s2 == 0 && (ip.s3 == 0 && (ip.s4 == 0 && ip.s5 == 0xffff))))
    then some (record { a = ip.s6 / 256; b = ip.s6 % 256; c = ip.s7 / 256; d = ip.s7 % 256 })
    else none

-- `s & 0xffc0` and `s & 0xfe00` of a segment clear its last 6 and 9 bits.
unmapped : Ipv6Addr → Option Ipv4Addr → Bool
unmapped ip (some v4) = ipv4_is_globally_routable v4
unmapped ip none =
    if ip.s0 / 64 * 64 == 0xfe80
    then false
    else if ip.s0 / 512 * 512 == 0xfc00
    then false
    else if ip.s0 == 0x2001 && ip.s1 == 0x0db8
    then false
    else true

unfoldable pub ipv6_is_globally_routable : Ipv6Addr → Bool
unfolding starts_zero to_ipv4_mapped unmapped
ipv6_is_globally_routable ip =
    if starts_zero ip && ip.s7 == 1 || (starts_zero ip && ip.s7 == 0 || ip.s0 / 256 == 0xff)
    then false
    else unmapped ip (to_ipv4_mapped ip)

pub data IpAddr : Type 0 where
  v4 : Ipv4Addr → IpAddr
  v6 : Ipv6Addr → IpAddr

unfoldable pub is_globally_routable : IpAddr → Bool
is_globally_routable (v4 ip) = ipv4_is_globally_routable ip
is_globally_routable (v6 ip) = ipv6_is_globally_routable ip

unfoldable pub all_routable : List IpAddr → Bool
all_routable [] = true
all_routable (a ∷ rest) = is_globally_routable a && all_routable rest

-- What the name stands for, if it stands for anything and all of it is public.
unfoldable pub resolve : List IpAddr → Option (List IpAddr)
resolve [] = none
resolve (a ∷ rest) = if all_routable (a ∷ rest) then some (a ∷ rest) else none

-- A block of IPv4 addresses: its first address, and how many there are.
pub record Block : Type 0 where
  pub first : ℕ
  pub size : ℕ

-- a.b.c.d as one number.
abbrev pub number : ℕ → ℕ → ℕ → ℕ → ℕ
number a b c d = a * 16777216 + b * 65536 + c * 256 + d

abbrev pub block : ℕ → ℕ → ℕ → ℕ → ℕ → Block
block a b c d size = record { first = number a b c d; size = size }

-- The blocks that IANA keeps for special uses, by their lengths /8, /10, /12, /15, /16, /24, /4.
abbrev pub special_blocks : List Block
special_blocks =
    block 0 0 0 0 16777216
    ∷ block 10 0 0 0 16777216
    ∷ block 100 64 0 0 4194304
    ∷ block 127 0 0 0 16777216
    ∷ block 169 254 0 0 65536
    ∷ block 172 16 0 0 1048576
    ∷ block 192 0 0 0 256
    ∷ block 192 0 2 0 256
    ∷ block 192 88 99 0 256
    ∷ block 192 168 0 0 65536
    ∷ block 198 18 0 0 131072
    ∷ block 198 51 100 0 256
    ∷ block 203 0 113 0 256
    ∷ block 224 0 0 0 268435456
    ∷ block 240 0 0 0 268435456
    ∷ []

abbrev pub in_block : ℕ → Block → Bool
in_block n b = leb b.first n && ltb n (b.first + b.size)

abbrev pub in_any : ℕ → List Block → Bool
in_any n [] = false
in_any n (b ∷ bs) = in_block n b || in_any n bs

pub record IsAddress (ip : Ipv4Addr) : Type 0 where
  pub a : ip.a < 256
  pub b : ip.b < 256
  pub c : ip.c < 256
  pub d : ip.d < 256
