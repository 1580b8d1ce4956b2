-- ===== src/Sync/Decide.antt =====
-- `decide` of crates/anago-core/src/sync.rs: what each outcome means.
use anago.Prelude.{
  ◌≡◌, ◌≢◌, refl, ◌↔◌, inl, inr, true, List, Option, none, some, ◌==◌, list_eq, nat_eq,
  list_beq_iff, find, arith, Option-cases, Bool-cases,
}
use anago.Ipv4.{addr_eq}
use anago.Subnet.{subnet_eq, subnet_beq_iff}
use anago.Name.{name_eq}
use anago.Sync.{
  Local, Reported, Member, unauthorized, removed, reassigned, subnet_changed, Outcome, unchanged,
  unverifiable, rewrite, detached, any_change, changes, compare, check_roster, decide,
}

-- The network that is reported, where one is, is the one that the device joined.
abbrev pub SameSubnet : Local → Option Reported → Type 0
SameSubnet local none = Unit {0}
SameSubnet local (some r) = r.subnet ≡ local.subnet

-- The first entry of the device's name holds the device's address.
abbrev pub IsListed : Local → List Member → Type 0
IsListed local roster =
    (m : Member) × (find (λ (m : Member). m.name == local.name) roster ≡ some m)
    × (m.address ≡ local.address)

-- What an outcome says of the two sides.
abbrev pub Says : Local → Option Reported → List Member → Outcome → Type 0
Says local reported roster unchanged =
    (r : Reported) × (reported ≡ some r)
    × IsListed local roster
    × (r.subnet ≡ local.subnet)
    × (r.server_public_key ≡ local.server_public_key)
    × (r.server_endpoint ≡ local.server_endpoint)
    × (r.server_address ≡ local.server_address)
Says local reported roster unverifiable = (reported ≡ none) × IsListed local roster
Says local reported roster (rewrite c) =
    (r : Reported) × (reported ≡ some r)
    × IsListed local roster
    × (r.subnet ≡ local.subnet)
    × ((c.server_public_key ≡ true) ↔ (r.server_public_key ≢ local.server_public_key))
    × ((c.server_endpoint ≡ true) ↔ (r.server_endpoint ≢ local.server_endpoint))
    × ((c.server_address ≡ true) ↔ (r.server_address ≢ local.server_address))
    × (any_change c ≡ true)
Says local reported roster (detached unauthorized) = ⊥
Says local reported roster (detached removed) =
    SameSubnet local reported × (find (λ (m : Member). m.name == local.name) roster ≡ none)
Says local reported roster (detached (reassigned theirs)) =
    SameSubnet local reported
    × (m : Member) × (find (λ (m : Member). m.name == local.name) roster ≡ some m)
    × (m.address ≡ theirs)
    × (theirs ≢ local.address)
Says local reported roster (detached (subnet_changed theirs)) =
    (r : Reported) × (reported ≡ some r) × (r.subnet ≡ theirs) × (theirs ≢ local.subnet)

compare-Says :
    (local : Local) (reported : Option Reported) (roster : List Member)
    → SameSubnet local reported
    → IsListed local roster
    → Says local reported roster (compare local reported)
unfolding compare
compare-Says local none roster same listed = (refl, listed)
compare-Says local (some r) roster same listed = elim (Bool-cases (any_change (changes local r))) [
  | inl moved ↦
      rw (moved, compare)
        (
          r,
          refl,
          listed,
          same,
          ground (arith, list_beq_iff r.server_public_key local.server_public_key),
          ground (arith, list_beq_iff r.server_endpoint local.server_endpoint),
          ground (arith, addr_eq.beq_iff r.server_address local.server_address),
          moved,
        )
  | inr still ↦
      rw (still, compare)
        (
          r,
          refl,
          listed,
          same,
          ground (arith, list_beq_iff r.server_public_key local.server_public_key),
          ground (arith, list_beq_iff r.server_endpoint local.server_endpoint),
          ground (arith, addr_eq.beq_iff r.server_address local.server_address),
        )
]

check_roster-Says :
    (local : Local) (reported : Option Reported) (roster : List Member)
    → SameSubnet local reported
    → Says local reported roster (check_roster local reported roster)
unfolding check_roster
check_roster-Says local reported roster same =
    elim (Option-cases (find (λ (m : Member). m.name == local.name) roster)) [
      | inl missing ↦ rw (missing, check_roster) (same, missing)
      | inr (m, found) ↦ elim (Bool-cases (m.address == local.address)) [
        | inl here ↦
            rw (found, check_roster, here)
              (compare-Says local reported roster same
                (m, found, (addr_eq.beq_iff m.address local.address).0 here))
        | inr moved ↦
            rw (found, check_roster, moved)
              (same, m, found, refl, ground (arith, addr_eq.beq_iff m.address local.address))
      ]
    ]

-- Every outcome of `decide` is the truth about the two sides: a change of network is reported before
-- a missing name, that before another address, and only a device that still fits is compared. It
-- then rewrites exactly the values that differ, reports "unchanged" only if all four agree, and
-- never rewrites or detaches because the hub said nothing about itself.
pub decide-Says :
    (local : Local) (reported : Option Reported) (roster : List Member)
    → Says local reported roster (decide local reported roster)
unfolding decide
decide-Says local none roster = check_roster-Says local none roster tt
decide-Says local (some r) roster = elim (Bool-cases (r.subnet == local.subnet)) [
  | inl same ↦
      rw (same, decide)
        (check_roster-Says local (some r) roster ((subnet_beq_iff r.subnet local.subnet).0 same))
  | inr other ↦
      rw (other, decide) (r, refl, refl, ground (arith, subnet_beq_iff r.subnet local.subnet))
]

-- A device that is listed at its address and holds the four values has nothing to do.
pub decide-unchanged :
    (local : Local) (r : Reported) (roster : List Member)
    → IsListed local roster
    → r.subnet ≡ local.subnet
    → r.server_public_key ≡ local.server_public_key
    → r.server_endpoint ≡ local.server_endpoint
    → r.server_address ≡ local.server_address
    → decide local (some r) roster ≡ unchanged
unfolding decide check_roster compare
decide-unchanged local r roster (m, found, at) s k e a = ground (
  arith,
  found,
  (addr_eq.beq_iff m.address local.address).1 at,
  (subnet_beq_iff r.subnet local.subnet).1 s,
  (list_beq_iff r.server_public_key local.server_public_key).1 k,
  (list_beq_iff r.server_endpoint local.server_endpoint).1 e,
  (addr_eq.beq_iff r.server_address local.server_address).1 a,
)
