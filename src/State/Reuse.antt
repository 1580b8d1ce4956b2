-- ===== src/State/Reuse.antt =====
-- Addresses come back (crates/anago-core/src/state.rs): a device that joins after a removal gets the
-- freed address or a lower one.
use anago.Prelude.{
  ◌≤◌, ◌≡◌, ap, subst, true, false, some, arith, ok, contains, ◌==◌, List, [], ◌∷◌, find,
  Bool-cases, Option-cases, inl, inr,
}
use native.Mathlib.Decide.{dec_le}
use anago.Prelude.Int.{ℤ}
use anago.Ipv4.{addr_eq}
use anago.Subnet.{Subnet, address_of}
use anago.Subnet.Alloc.{IsDeviceAddress, IsDeviceAddress-address_of, allocate-lowest_free}
use anago.Name.{DeviceName, name_eq}
use anago.State.{Peer, ServerState, Registration, add_peer, remove_peer, peer, peer_addresses}
use anago.State.Invariant.{IsSound, AllDevices}
use anago.State.Join.{add_peer-Admits}
use anago.State.Remove.{remove_peer-IsWithout}

devices-find :
    (subnet : Subnet) (name : DeviceName) (ps : List Peer) {p : Peer}
    → AllDevices subnet ps
    → find (λ (q : Peer). q.name == name) ps ≡ some p
    → IsDeviceAddress subnet p.address
devices-find subnet name [] v h = absurd (ground arith)
devices-find subnet name (q ∷ ps) {p} v h = elim (Bool-cases (q.name == name)) [
  | inl here ↦
      let same : q ≡ p = ground (arith, rw here at h) in
      subst (λ (x : Peer). IsDeviceAddress subnet x.address) same v.0
  | inr other ↦ devices-find subnet name ps v.1 (rw other at h)
]

removed-device :
    (s : ServerState) (name : DeviceName) {p : Peer}
    → IsSound s
    → (remove_peer s name).1 ≡ some p
    → IsDeviceAddress s.subnet p.address
unfolding remove_peer peer
removed-device s name {p} v h = elim (Option-cases (peer s name)) [
  | inl e ↦ absurd (ground arith)
  | inr (q, e) ↦
      let same : q ≡ p = ground (arith, rw (e, remove_peer) at h) in
      subst (λ (x : Peer). IsDeviceAddress s.subnet x.address) same
        (devices-find s.subnet name s.peers v.devices e)
]

removed-subnet : (s : ServerState) (name : DeviceName) → (remove_peer s name).0.subnet ≡ s.subnet
unfolding remove_peer
removed-subnet s name = ground arith

removed-address :
    (s : ServerState) (name : DeviceName) {p : Peer}
    → IsSound s
    → (remove_peer s name).1 ≡ some p
    → contains (peer_addresses (remove_peer s name).0.peers) p.address ≡ false
removed-address s name {p} v h = elim (remove_peer-IsWithout s name v) [
  | inl (e, unchanged) ↦ absurd (ground (arith, ap (λ x. x.1) unchanged, h))
  | inr (q, named, removed, without, rest) ↦
      let same : q ≡ p = ground (arith, removed, h) in
      subst (λ (x : Peer). contains (peer_addresses (remove_peer s name).0.peers) x.address ≡ false)
        same without.address_gone
]

-- In a sound state (`IsSound`: no two devices share an address, and each has a device address of the
-- subnet; a state file need not be one) the address of a device that was removed is free again: the
-- next device to join gets that one or a lower one.
pub add_peer-remove_peer-le :
    (s : ServerState) (name : DeviceName) (r : Registration) (now : ℤ) {p q : Peer}
    → IsSound s
    → (remove_peer s name).1 ≡ some p
    → (add_peer (remove_peer s name).0 r now).1 ≡ ok q
    → q.address.d ≤ p.address.d
add_peer-remove_peer-le s name r now {p} {q} v h k = elim (dec_le q.address.d p.address.d) [
  | yes le ↦ le
  | no more ↦
      let (a, spelt) = add_peer-Admits (remove_peer s name).0 r now k in
      let (device, ne, free, lowest) =
        allocate-lowest_free (remove_peer s name).0.subnet
          (peer_addresses (remove_peer s name).0.peers) a.allocated in
      let gone = removed-device s name v h in
      let taken : contains (peer_addresses (remove_peer s name).0.peers)
            (address_of s.subnet p.address.d)
          ≡ true =
        subst
          (λ (x : Subnet).
            contains (peer_addresses (remove_peer s name).0.peers) (address_of x p.address.d)
            ≡ true)
          (removed-subnet s name) (lowest p.address.d gone.low (omega arith)) in
      let back = IsDeviceAddress-address_of s.subnet p.address gone in
      let still =
        subst (λ x. contains (peer_addresses (remove_peer s name).0.peers) x ≡ true) back taken in
      absurd (ground (arith, still, removed-address s name v h))
]
