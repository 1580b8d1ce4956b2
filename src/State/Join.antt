-- ===== src/State/Join.antt =====
-- `add_peer` (crates/anago-core/src/state.rs): all or nothing, and what it changes.
use anago.Prelude.{
  ◌<◌, ◌≡◌, ◌≢◌, refl, sym, ap, subst, inl, inr, true, false, none, some, arith, length, length-map,
  contains, ok, err, Option-cases,
}
use anago.Prelude.Int.{ℤ}
use anago.Ipv4.{Ipv4Addr, addr_eq}
use anago.Subnet.{allocate}
use anago.Subnet.Alloc.{allocate-total}
use anago.Name.{name_eq}
use anago.Code.{code_eq, IssuedCode, usable, issued_status, is_usable, status}
use anago.State.{
  Peer, ServerState, Registration, JoinRejection, unknown_code, code_not_usable, name_taken,
  subnet_full, find_code, peer_names, peer_addresses, new_peer, register, admit, add_peer,
}
use anago.State.Found.{is_taken-contains}

add_peer-unchanged :
    (s : ServerState) (r : Registration) (now : ℤ) {e : JoinRejection}
    → (add_peer s r now).1 ≡ err e
    → (add_peer s r now).0 ≡ s
unfolding add_peer admit
add_peer-unchanged s r now h = ground arith

-- The facts under which `add_peer` succeeds, with the address that it hands out.
pub record Admits (s : ServerState) (r : Registration) (now : ℤ) (address : Ipv4Addr) : Type 0 where
  pub issued : IssuedCode
  pub found : find_code r.code s.codes ≡ some issued
  pub live : is_usable issued now ≡ true
  pub fresh : contains (peer_names s.peers) r.name ≡ false
  pub allocated : allocate s.subnet (peer_addresses s.peers) ≡ some address

pub Admits-add_peer :
    (s : ServerState) (r : Registration) (now : ℤ) {address : Ipv4Addr}
    → Admits s r now address
    → add_peer s r now ≡ (register s r address now, ok (new_peer r address now))
unfolding add_peer admit is_usable
Admits-add_peer s r now a =
    ground (arith, a.found, a.live, a.allocated, is_taken-contains r.name s.peers)

pub add_peer-Admits :
    (s : ServerState) (r : Registration) (now : ℤ) {p : Peer}
    → (add_peer s r now).1 ≡ ok p
    → Admits s r now p.address × (p ≡ new_peer r p.address now)
unfolding add_peer admit is_usable
add_peer-Admits s r now {p} h = elim (Option-cases (find_code r.code s.codes)) [
  | inl e ↦ absurd (ground arith)
  | inr (issued, e) ↦ elim (Option-cases (allocate s.subnet (peer_addresses s.peers))) [
    | inl f ↦ absurd (ground arith)
    | inr (address, f) ↦
        let same : p ≡ new_peer r address now = ground arith in
        subst (λ q. Admits s r now q.address × (q ≡ new_peer r q.address now)) (sym same)
          (
            record {
              issued = issued;
              found = e;
              live = ground arith;
              fresh = ground (arith, is_taken-contains r.name s.peers);
              allocated = f;
            },
            refl,
          )
  ]
]

-- Why a registration is turned down.
abbrev pub Reason : ServerState → Registration → ℤ → JoinRejection → Type 0
Reason s r now unknown_code = find_code r.code s.codes ≡ none
Reason s r now (code_not_usable status) =
    (i : IssuedCode) × (find_code r.code s.codes ≡ some i)
    × (issued_status i now ≡ status)
    × (status ≢ usable)
Reason s r now name_taken = contains (peer_names s.peers) r.name ≡ true
Reason s r now subnet_full = allocate s.subnet (peer_addresses s.peers) ≡ none

admit-Reason :
    (s : ServerState) (r : Registration) (now : ℤ) (i : IssuedCode) (e : JoinRejection)
    → find_code r.code s.codes ≡ some i
    → (admit s r now (issued_status i now)).1 ≡ err e
    → Reason s r now e
unfolding admit
admit-Reason s r now i unknown_code f h = absurd (ground arith)
admit-Reason s r now i (code_not_usable status) f h = (i, f, ground arith, ground arith)
admit-Reason s r now i name_taken f h = ground (arith, is_taken-contains r.name s.peers)
admit-Reason s r now i subnet_full f h = ground arith

add_peer-Reason :
    (s : ServerState) (r : Registration) (now : ℤ) (e : JoinRejection)
    → (add_peer s r now).1 ≡ err e
    → Reason s r now e
unfolding add_peer
add_peer-Reason s r now e h = elim (Option-cases (find_code r.code s.codes)) [
  | inl none_found ↦ subst (Reason s r now) {x = unknown_code} (ground arith) none_found
  | inr (i, f) ↦ admit-Reason s r now i e f (rw (f, add_peer) at h)
]

-- A registration that is turned down leaves the whole state as it was, the code included, and the
-- rejection names what is wrong: no such code, a code that is not usable, a name that a device has,
-- or no address left.
pub add_peer-rejected :
    (s : ServerState) (r : Registration) (now : ℤ) {e : JoinRejection}
    → (add_peer s r now).1 ≡ err e
    → ((add_peer s r now).0 ≡ s) × Reason s r now e
add_peer-rejected s r now {e} h = (add_peer-unchanged s r now h, add_peer-Reason s r now e h)

-- While there are fewer than 253 devices, a usable code and a free name are enough.
pub add_peer_total :
    (s : ServerState) (r : Registration) (now : ℤ) (issued : IssuedCode)
    → length s.peers < 253
    → find_code r.code s.codes ≡ some issued
    → is_usable issued now ≡ true
    → contains (peer_names s.peers) r.name ≡ false
    → (p : Peer) × ((add_peer s r now).1 ≡ ok p)
add_peer_total s r now issued n f live fresh =
    let (address, allocated) =
      allocate-total s.subnet (peer_addresses s.peers)
        (omega (arith, length-map (λ (p : Peer). p.address) s.peers)) in
    let admits : Admits s r now address = record {
      issued = issued;
      found = f;
      live = live;
      fresh = fresh;
      allocated = allocated;
    } in
    (new_peer r address now, ap (λ t. t.1) (Admits-add_peer s r now admits))
