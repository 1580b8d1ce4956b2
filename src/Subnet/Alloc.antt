-- ===== src/Subnet/Alloc.antt =====
-- Allocation (crates/anago-core/src/subnet.rs): the address that is handed out is free and the
-- lowest, and there is one while the addresses in use are fewer than the host addresses.
use anago.Prelude.{
  ℕ, zero, suc, ◌+◌, ◌≤◌, ◌<◌, ◌≡◌, ◌≢◌, refl, sym, ap, ◌∙◌, true, false, List, [], ◌∷◌, none, some,
  arith, nat_eq, length, contains, Bool-cases, Option-cases, inl, inr, ◌↔◌, ◌⊎◌, subst,
}
use native.Mathlib.Decide.{ℕ_discrete, dec_lt}
use anago.Prelude.Pigeonhole.{length_covering}
use anago.Ipv4.{Ipv4Addr, addr_eq}
use anago.Subnet.{
  Subnet, address_of, has_address, host_octets, find_unused, next_free_octet, allocate,
  server_address,
}

lt-trichotomy : (m n : ℕ) → (m < n) ⊎ ((m ≡ n) ⊎ (n < m))
lt-trichotomy m n = elim (ℕ_discrete m n) [
  | yes e ↦ inr (inl e)
  | no ne ↦ elim (dec_lt m n) [ yes l ↦ inl l | no g ↦ inr (inr (omega arith)) ]
]

find_unused-some :
    (n lo : ℕ) (used : List ℕ) {o : ℕ}
    → find_unused n lo used ≡ some o
    → (lo ≤ o)
      × (o < lo + n)
      × (contains used o ≡ false)
      × ((m : ℕ) → lo ≤ m → m < o → contains used m ≡ true)
unfolding find_unused
find_unused-some zero lo used h = ground arith
find_unused-some (suc n) lo used {o} h = elim (Bool-cases (contains used lo)) [
  | inl taken ↦
      let found : find_unused n (lo + 1) used ≡ some o = rw (taken, find_unused) at h in
      let later = find_unused-some n (lo + 1) used found in
      (
        omega (arith, later.0),
        omega (arith, later.1),
        later.2,
        λ m p q. elim (ℕ_discrete m lo) [ yes e ↦ rw e taken | no ne ↦ later.3 m (omega arith) q ],
      )
  | inr free ↦
      let e : lo ≡ o = ground (arith, h) in
      (omega arith, omega arith, rw (← e) free, λ m p q. absurd (omega arith))
]

find_unused-none :
    (n lo : ℕ) (used : List ℕ)
    → find_unused n lo used ≡ none
    → (m : ℕ) → lo ≤ m
    → m < lo + n
    → contains used m ≡ true
unfolding find_unused
find_unused-none zero lo used h m p q = absurd (omega arith)
find_unused-none (suc n) lo used h m p q = elim (Bool-cases (contains used lo)) [
  | inl taken ↦ elim (ℕ_discrete m lo) [
    | yes e ↦ rw e taken
    | no ne ↦
        find_unused-none n (lo + 1) used (rw (taken, find_unused) at h) m (omega arith)
          (omega arith)
  ]
  | inr free ↦ ground arith
]

-- The octets that count as used are those of the used addresses of this network.
contains-host_octets :
    (s : Subnet) (used : List Ipv4Addr) (m : ℕ)
    → contains (host_octets s used) m ≡ contains used (address_of s m)
unfolding host_octets
contains-host_octets s [] m = refl
contains-host_octets s (x ∷ xs) m = ground (arith, contains-host_octets s xs m)

length-host_octets : (s : Subnet) (used : List Ipv4Addr) → length (host_octets s used) ≤ length used
unfolding host_octets
length-host_octets s [] = omega arith
length-host_octets s (x ∷ xs) = ground (arith, length-host_octets s xs)

allocate-eq-some :
    (s : Subnet) (used : List Ipv4Addr) {x : Ipv4Addr}
    → allocate s used ≡ some x
    → (o : ℕ) × (next_free_octet (host_octets s used) ≡ some o) × (x ≡ address_of s o)
unfolding allocate
allocate-eq-some s used h = ground arith

-- An address of the network that a device can hold: not the network's, the hub's or the broadcast
-- address.
pub record IsDeviceAddress (s : Subnet) (x : Ipv4Addr) : Type 0 where
  pub inside : has_address s x ≡ true
  pub low : 2 ≤ x.d
  pub high : x.d ≤ 254

pub IsDeviceAddress-ne-server :
    (s : Subnet) {x : Ipv4Addr} → IsDeviceAddress s x → x ≢ server_address s
unfolding server_address
IsDeviceAddress-ne-server s v e = omega (arith, ap (λ (y : Ipv4Addr). y.d) e)

-- The address at a device octet.
address_of-IsDeviceAddress :
    (s : Subnet) (o : ℕ) → 2 ≤ o → o ≤ 254 → IsDeviceAddress s (address_of s o)
unfolding has_address
address_of-IsDeviceAddress s o p q = record { inside = ground arith; low = p; high = q }

allocate-some_at :
    (s : Subnet) (used : List Ipv4Addr) (o : ℕ)
    → next_free_octet (host_octets s used) ≡ some o
    → IsDeviceAddress s (address_of s o)
      × (contains used (address_of s o) ≡ false)
      × ((m : ℕ) → 2 ≤ m → m < o → contains used (address_of s m) ≡ true)
unfolding next_free_octet
allocate-some_at s used o found =
    let free = find_unused-some 253 2 (host_octets s used) found in
    (
      address_of-IsDeviceAddress s o free.0 (omega (arith, free.1)),
      sym (contains-host_octets s used o) ∙ free.2,
      λ m p q. sym (contains-host_octets s used m) ∙ free.3 m p q,
    )

-- What is allocated is a device address of the network, is not in use and is not the hub's own;
-- every lower device address is in use.
pub allocate-lowest_free :
    (s : Subnet) (used : List Ipv4Addr) {x : Ipv4Addr}
    → allocate s used ≡ some x
    → IsDeviceAddress s x
      × (x ≢ server_address s)
      × (contains used x ≡ false)
      × ((m : ℕ) → 2 ≤ m → m < x.d → contains used (address_of s m) ≡ true)
allocate-lowest_free s used {x} h =
    let (o, found, e) = allocate-eq-some s used h in
    let (device, free, lower) = allocate-some_at s used o found in
    rw e (device, IsDeviceAddress-ne-server s device, free, lower)

allocate-none :
    (s : Subnet) (used : List Ipv4Addr)
    → allocate s used ≡ none
    → (m : ℕ) → 2 ≤ m
    → m ≤ 254
    → contains used (address_of s m) ≡ true
unfolding allocate next_free_octet
allocate-none s used h m p q =
    sym (contains-host_octets s used m)
    ∙ find_unused-none 253 2 (host_octets s used) (ground (arith, h)) m p (omega arith)

-- Allocation fails exactly when every device address is in use.
pub allocate-none_iff :
    (s : Subnet) (used : List Ipv4Addr)
    → (allocate s used ≡ none) ↔ ((m : ℕ) → 2 ≤ m → m ≤ 254 → contains used (address_of s m) ≡ true)
allocate-none_iff s used = (
  allocate-none s used,
  λ full. elim (Option-cases (allocate s used)) [
    | inl e ↦ e
    | inr (x, e) ↦
        let (o, found, at) = allocate-eq-some s used e in
        let (device, free, lower) = allocate-some_at s used o found in
        let taken = full o device.low device.high in cc (free, taken)
  ],
)

-- A device address is the subnet's address at its last octet.
pub IsDeviceAddress-address_of :
    (s : Subnet) (x : Ipv4Addr) → IsDeviceAddress s x → address_of s x.d ≡ x
unfolding has_address
IsDeviceAddress-address_of s x v = ground (arith, v.inside)

-- The lowest free device address is the one that is allocated.
pub lowest_free-allocate :
    (s : Subnet) (used : List Ipv4Addr) (x : Ipv4Addr)
    → IsDeviceAddress s x
    → contains used x ≡ false
    → ((m : ℕ) → 2 ≤ m → m < x.d → contains used (address_of s m) ≡ true)
    → allocate s used ≡ some x
lowest_free-allocate s used x device free lower = elim (Option-cases (allocate s used)) [
  | inl e ↦
      let taken = allocate-none s used e x.d device.low device.high in
      let named = IsDeviceAddress-address_of s x device in
      let taken' : contains used x ≡ true = subst (λ y. contains used y ≡ true) named taken in
      absurd (ground arith)
  | inr (y, e) ↦
      let (other, ne, unused, below) = allocate-lowest_free s used e in
      let at_x = IsDeviceAddress-address_of s x device in
      let at_y = IsDeviceAddress-address_of s y other in
      let octets : x.d ≡ y.d = elim (lt-trichotomy x.d y.d) [
        | inl less ↦
            let taken : contains used x ≡ true =
              subst (λ z. contains used z ≡ true) at_x (below x.d device.low less) in
            absurd (ground arith)
        | inr (inl same) ↦ same
        | inr (inr more) ↦
            let taken : contains used y ≡ true =
              subst (λ z. contains used z ≡ true) at_y (lower y.d other.low more) in
            absurd (ground arith)
      ] in
      e ∙ ap some (sym at_y ∙ ap (address_of s) (sym octets) ∙ at_x)
]

-- With fewer than 253 addresses in use there is one left.
pub allocate-total :
    (s : Subnet) (used : List Ipv4Addr)
    → length used < 253
    → (x : Ipv4Addr) × (allocate s used ≡ some x)
allocate-total s used h = elim (Option-cases (allocate s used)) [
  | inl e ↦
      let covered : 253 ≤ length (host_octets s used) =
        length_covering 253 2 (host_octets s used)
          (λ m p q. contains-host_octets s used m ∙ allocate-none s used e m p (omega arith)) in
      absurd (omega (arith, covered, length-host_octets s used))
  | inr found ↦ found
]
