-- ===== src/Download/Address/Routable.antt =====
-- triAI-Engine/src/download.rs: the test of an IPv4 address against the blocks for special uses.
use carlo_one_core.Prelude.{
  ℕ, ◌<◌, Bool, true, false, not, ◌&&◌, ◌||◌, ◌≡◌, leb, ◌==◌, arith, Bool-cases, inl, inr,
}
use carlo_one_core.Download.Address.{
  Ipv4Addr, IsAddress, ipv4_is_globally_routable, number, block, in_block, in_any, special_blocks,
  is_private, is_broadcast, is_documentation, is_unspecified, special_octets,
}

module _ (a b c d : ℕ) (ha : a < 256) (hb : b < 256) (hc : c < 256) (hd : d < 256) where
  -- A block of the lengths 8, 16 and 24.
  in-8 : (x : ℕ) → in_block (number a b c d) (block x 0 0 0 16777216) ≡ (a == x)
  in-8 x = ground arith

  in-16 : (x y : ℕ) → y < 256 → in_block (number a b c d) (block x y 0 0 65536) ≡ (a == x && b == y)
  in-16 x y hy = ground arith

  in-24 :
      (x y z : ℕ)
      → y < 256
      → z < 256
      → in_block (number a b c d) (block x y z 0 256) ≡ (a == x && (b == y && c == z))
  in-24 x y z hy hz = ground arith

  in-carrier :
      in_block (number a b c d) (block 100 64 0 0 4194304) ≡ (a == 100 && leb 64 b && leb b 127)
  in-carrier = ground arith

  in-private :
      in_block (number a b c d) (block 172 16 0 0 1048576) ≡ (a == 172 && leb 16 b && leb b 31)
  in-private = ground arith

  in-benchmark :
      in_block (number a b c d) (block 198 18 0 0 131072) ≡ (a == 198 && (b == 18 || b == 19))
  in-benchmark = ground arith

  in-multicast : in_block (number a b c d) (block 224 0 0 0 268435456) ≡ (leb 224 a && leb a 239)
  in-multicast = ground arith

  in-reserved : in_block (number a b c d) (block 240 0 0 0 268435456) ≡ (leb 240 a && leb a 255)
  in-reserved = ground arith

-- The tests on the octets, with those of the blocks in the order of the list.
special : ℕ → ℕ → ℕ → Bool
special a b c =
    a == 0
    || (a == 10
        || (a == 100 && leb 64 b && leb b 127
            || (a == 127
                || (a == 169 && b == 254
                    || (a == 172 && leb 16 b && leb b 31
                        || (a == 192 && (b == 0 && c == 0)
                            || (a == 192 && (b == 0 && c == 2)
                                || (a == 192 && (b == 88 && c == 99)
                                    || (a == 192 && b == 168
                                        || (a == 198 && (b == 18 || b == 19)
                                            || (a == 198 && (b == 51 && c == 100)
                                                || (a == 203 && (b == 0 && c == 113)
                                                    || (leb 224 a && leb a 239
                                                        || (leb 240 a && leb a 255
                                                            || false))))))))))))))

module _ (a b c d : ℕ) where
  abbrev octets : Ipv4Addr
  octets = record { a = a; b = b; c = c; d = d }

  -- One first octet at a time.
  routable_at :
      (x : ℕ)
      → ipv4_is_globally_routable (record octets { a = x }) ≡ not (special x b c)
      → (a == x) ≡ true
      → ipv4_is_globally_routable octets ≡ not (special a b c)
  routable_at x at h = let e : a ≡ x = ground arith in rw e at

  routable_octets : a < 256 → ipv4_is_globally_routable octets ≡ not (special a b c)
  unfolding ipv4_is_globally_routable is_private is_broadcast is_documentation is_unspecified
      special_octets special
  routable_octets h = elim (Bool-cases (a == 192)) [
    | inl e ↦ routable_at 192 (ground arith) e
    | inr n192 ↦ elim (Bool-cases (a == 198)) [
      | inl e ↦ routable_at 198 (ground arith) e
      | inr n198 ↦ elim (Bool-cases (a == 100)) [
        | inl e ↦ routable_at 100 (ground arith) e
        | inr n100 ↦ elim (Bool-cases (a == 172)) [
          | inl e ↦ routable_at 172 (ground arith) e
          | inr n172 ↦ elim (Bool-cases (a == 203)) [
            | inl e ↦ routable_at 203 (ground arith) e
            | inr n203 ↦ elim (Bool-cases (a == 169)) [
              | inl e ↦ routable_at 169 (ground arith) e
              | inr n169 ↦ rw (n192, n198, n100, n172, n203, n169) (ground arith)
            ]
          ]
        ]
      ]
    ]
  ]

-- An IPv4 address, of four octets, is allowed exactly if it is in none of the blocks that are kept
-- for special uses.
pub routable-special_blocks :
    (ip : Ipv4Addr)
    → IsAddress ip
    → ipv4_is_globally_routable ip ≡ not (in_any (number ip.a ip.b ip.c ip.d) special_blocks)
unfolding special
routable-special_blocks ip h =
    let i8 = in-8 ip.a ip.b ip.c ip.d h.a h.b h.c h.d in
    let i16 = in-16 ip.a ip.b ip.c ip.d h.a h.b h.c h.d in
    let i24 = in-24 ip.a ip.b ip.c ip.d h.a h.b h.c h.d in
    rw
      (
        i8 0,
        i8 10,
        in-carrier ip.a ip.b ip.c ip.d h.a h.b h.c h.d,
        i8 127,
        i16 169 254 (omega arith),
        in-private ip.a ip.b ip.c ip.d h.a h.b h.c h.d,
        i24 192 0 0 (omega arith) (omega arith),
        i24 192 0 2 (omega arith) (omega arith),
        i24 192 88 99 (omega arith) (omega arith),
        i16 192 168 (omega arith),
        in-benchmark ip.a ip.b ip.c ip.d h.a h.b h.c h.d,
        i24 198 51 100 (omega arith) (omega arith),
        i24 203 0 113 (omega arith) (omega arith),
        in-multicast ip.a ip.b ip.c ip.d h.a h.b h.c h.d,
        in-reserved ip.a ip.b ip.c ip.d h.a h.b h.c h.d,
      )
      (routable_octets ip.a ip.b ip.c ip.d h.a)
