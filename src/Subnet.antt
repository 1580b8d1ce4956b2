-- ===== src/Subnet.antt =====
-- crates/anago-core/src/subnet.rs: the /24 network and the addresses handed out in it.
pub mod Alloc
pub mod Canonical
mod Tests
use anago.Prelude.{
  ℕ, zero, suc, ◌+◌, ◌-◌, ◌≡◌, ◌↔◌, Bool, true, false, not, ◌&&◌, List, [], ◌∷◌, ◌++◌, Option, none,
  some, arith, leb, ltb, ◌==◌, Eq, nat_eq, if◌then◌else◌, length, all, contains, Result, ok, err,
  guard, ok_or, ◌>>=◌, ◌>>◌,
}
use mathlib.Core.Option
use anago.Text.{Text, is_digit, split_once}
use anago.Text.Decimal.{value, decimal}
use anago.Ipv4
use anago.Ipv4.{Ipv4Addr, addr_eq}

-- The only prefix length that is supported.
abbrev pub prefix_len : ℕ
prefix_len = 24

pub record Subnet : Type 0 where
  pub network : Ipv4Addr

pub data SubnetError : Type 0 where
  missing_prefix bad_address bad_prefix : SubnetError
  unsupported_prefix : ℕ → SubnetError
  not_network_address : Ipv4Addr → SubnetError

abbrev pub subnet_beq : Subnet → Subnet → Bool
subnet_beq s t = s.network == t.network

pub subnet_beq_iff : (s t : Subnet) → (subnet_beq s t ≡ true) ↔ (s ≡ t)
subnet_beq_iff s t = ground (arith, addr_eq.beq_iff s.network t.network)

instance abbrev pub subnet_eq : Eq Subnet
subnet_eq = record { beq = subnet_beq; beq_iff = subnet_beq_iff }

starts_zero : Text → Bool
starts_zero [] = false
starts_zero (c ∷ cs) = c == b'0'

is_empty : Text → Bool
is_empty [] = true
is_empty (c ∷ cs) = false

-- `prefix.parse::<u8>()` of a run of digits: it fails past 255.
parse_u8 : Text → Option ℕ
parse_u8 s = if ltb 255 (value s) then none else some (value s)

-- `Subnet::parse`.
unfoldable pub parse : Text → Result SubnetError Subnet
unfolding starts_zero is_empty parse_u8
parse text = do
  (address, prefix) ← ok_or (split_once b'/' text) missing_prefix
  network ← ok_or (Ipv4.parse address) bad_address
  guard (not (is_empty prefix) && all is_digit prefix) bad_prefix
  guard (not (ltb 1 (length prefix) && starts_zero prefix)) bad_prefix
  n ← ok_or (parse_u8 prefix) bad_prefix
  guard (leb n 32) bad_prefix
  guard (n == prefix_len) (unsupported_prefix n)
  guard (network.d == 0) (not_network_address network)
  ok (record { network = network })

-- `Display for Subnet`.
unfoldable pub display : Subnet → Text
display s = Ipv4.display s.network ++ b'/' ∷ decimal prefix_len

abbrev pub address_of : Subnet → ℕ → Ipv4Addr
address_of s octet = record { a = s.network.a; b = s.network.b; c = s.network.c; d = octet }

-- The hub's own address.
unfoldable pub server_address : Subnet → Ipv4Addr
server_address s = address_of s 1

unfoldable pub has_address : Subnet → Ipv4Addr → Bool
has_address s x = (x.a == s.network.a) && (x.b == s.network.b) && (x.c == s.network.c)

-- The host octet of an address of this network.
unfoldable pub host_octet : Subnet → Ipv4Addr → Option ℕ
unfolding has_address
host_octet s x = if has_address s x then some x.d else none

-- `iter().filter_map(host_octet).collect()`.
unfoldable pub host_octets : Subnet → List Ipv4Addr → List ℕ
unfolding host_octet
host_octets s [] = []
host_octets s (x ∷ xs) = elim (host_octet s x) [
  | none ↦ host_octets s xs
  | some octet ↦ octet ∷ host_octets s xs
]

-- `(lo..).take(n).find(|o| !used.contains(o))`.
unfoldable pub find_unused : ℕ → ℕ → List ℕ → Option ℕ
find_unused zero lo used = none
find_unused (suc n) lo used =
    let rest = find_unused n (lo + 1) used in if contains used lo then rest else some lo

-- The octets 2 to 254 are for devices.
unfoldable pub next_free_octet : List ℕ → Option ℕ
next_free_octet used = find_unused 253 2 used

-- `Subnet::allocate`: the lowest free device address.
unfoldable pub allocate : Subnet → List Ipv4Addr → Option Ipv4Addr
allocate s used = Option.map (address_of s) (next_free_octet (host_octets s used))
