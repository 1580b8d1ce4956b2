-- ===== src/Subnet/Tests.antt =====
-- Runs of crates/anago-core/src/subnet.rs.
use anago.Prelude.{
  ◌≤◌, ◌<◌, ◌≡◌, ◌≢◌, refl, ◌↔◌, ℕ, true, false, [], ◌∷◌, List, some, contains, ok, err,
}
use anago.Text.{lit, split_once}
use anago.Ipv4
use anago.Ipv4.{Ipv4Addr, IsOctets, addr_eq}
use anago.Subnet.{
  Subnet, parse, display, allocate, address_of, next_free_octet, host_octets, find_unused,
  server_address, missing_prefix, bad_prefix, unsupported_prefix, not_network_address,
}
use anago.Subnet.Alloc.{IsDeviceAddress, allocate-lowest_free}
use anago.Subnet.Canonical.{parse-display_iff}

abbrev ten : Subnet
ten = record { network = record { a = 10; b = 100; c = 0; d = 0 } }

abbrev hosts : List Ipv4Addr
hosts = address_of ten 2 ∷ address_of ten 4 ∷ record { a = 10; b = 101; c = 0; d = 3 } ∷ []

allocate-hosts : allocate ten hosts ≡ some (address_of ten 3)
unfolding allocate next_free_octet host_octets find_unused
allocate-hosts = refl

allocate-lowest_free_example :
    IsDeviceAddress ten (address_of ten 3)
    × (address_of ten 3 ≢ server_address ten)
    × (contains hosts (address_of ten 3) ≡ false)
    × ((m : ℕ) → 2 ≤ m → m < 3 → contains hosts (address_of ten m) ≡ true)
allocate-lowest_free_example = allocate-lowest_free ten hosts allocate-hosts

parse-display_iff_example :
    (parse (lit "10.100.0.0/24") ≡ ok ten)
    ↔ ((lit "10.100.0.0/24" ≡ display ten) × IsOctets ten.network × (ten.network.d ≡ 0))
parse-display_iff_example = parse-display_iff (lit "10.100.0.0/24") ten

parse_network : parse (lit "10.100.0.0/24") ≡ ok ten
unfolding parse split_once Ipv4.parse Ipv4.read_octet
parse_network = refl

parse_bare : parse (lit "10.100.0.0") ≡ err missing_prefix
unfolding parse split_once
parse_bare = refl

parse_octal : parse (lit "10.100.0.0/024") ≡ err bad_prefix
unfolding parse split_once Ipv4.parse Ipv4.read_octet
parse_octal = refl

parse_host : parse (lit "10.100.0.5/24") ≡ err (not_network_address (address_of ten 5))
unfolding parse split_once Ipv4.parse Ipv4.read_octet
parse_host = refl

parse_wide : parse (lit "10.100.0.0/16") ≡ err (unsupported_prefix 16)
unfolding parse split_once Ipv4.parse Ipv4.read_octet
parse_wide = refl
