-- ===== src/Download/Address/Tests.antt =====
-- Runs of the tests of addresses.
use carlo_one_core.Prelude.{true, not, ◌≡◌, refl, arith}
use carlo_one_core.Download.Address.{
  is_globally_routable, v6, ipv6_is_globally_routable, ipv4_is_globally_routable, number, in_any,
  special_blocks,
}
use carlo_one_core.Download.Address.Routable.{routable-special_blocks}

routable-special_blocks_example :
    ipv4_is_globally_routable (record { a = 172; b = 20; c = 0; d = 1 })
    ≡ not (in_any (number 172 20 0 1) special_blocks)
routable-special_blocks_example =
    routable-special_blocks (record { a = 172; b = 20; c = 0; d = 1 })
      (record { a = omega arith; b = omega arith; c = omega arith; d = omega arith })

-- NAT64 of 127.0.0.1 is let through.
nat64_run :
    is_globally_routable
      (v6 (record { s0 = 0x64; s1 = 0xff9b; s2 = 0; s3 = 0; s4 = 0; s5 = 0; s6 = 0x7f00; s7 = 1 }))
    ≡ true
unfolding is_globally_routable ipv6_is_globally_routable
nat64_run = refl
