-- ===== src/State/Sound.antt =====
-- Every change of the hub's state keeps it sound (crates/anago-core/src/state.rs).
use anago.Prelude.{
  ◌+◌, ◌≤◌, ◌≡◌, refl, sym, ap, subst, inl, inr, true, false, List, [], ◌∷◌, ◌++◌, none, some,
  arith, ◌==◌, length, length-append, contains, Distinct, Distinct-snoc, Result-cases, Bool-cases,
  Option-cases,
}
use mathlib.Core.List.{map-append}
use anago.Prelude.Int.{ℤ}
use anago.Ipv4.{Ipv4Addr, addr_eq}
use anago.Subnet.{Subnet}
use anago.Subnet.Alloc.{IsDeviceAddress, allocate-lowest_free}
use anago.Name.{DeviceName, name_eq}
use anago.Code
use anago.Code.{
  JoinCode, code_eq, code_beq_iff, IssuedCode, CodeStatus, usable, used, expired, issued_status,
  is_usable, is_usable_status, status,
}
use anago.State.{
  Peer, ServerState, Registration, find_code, mark_used, issued_codes, peer_names, peer_addresses,
  new_peer, register, add_peer, peer, remove_first, remove_peer, issue, touch_first,
  touch_last_seen,
}
use anago.State.Join.{Admits, add_peer-Admits, Admits-add_peer, add_peer-rejected}
use anago.State.Remove.{Distinct-remove_first}
use anago.State.Found.{issued_codes-mark_used, peer_names-touch_first, peer_addresses-touch_first}
use anago.State.Invariant.{IsSound, AllDevices, spent_count}

All-snoc :
    (subnet : Subnet) (ps : List Peer) (p : Peer)
    → AllDevices subnet ps
    → IsDeviceAddress subnet p.address
    → AllDevices subnet (ps ++ p ∷ [])
All-snoc subnet [] p h k = (k, tt)
All-snoc subnet (q ∷ ps) p h k = (h.0, All-snoc subnet ps p h.1 k)

-- A usable code is not spent yet, so spending it raises the count.
spent_count-mark_used :
    (c : JoinCode) (now : ℤ) (codes : List IssuedCode) (i : IssuedCode)
    → find_code c codes ≡ some i
    → i.used_at ≡ none
    → spent_count (mark_used c now codes) ≡ spent_count codes + 1
unfolding find_code mark_used
spent_count-mark_used c now [] i f u = absurd (ground arith)
spent_count-mark_used c now (j ∷ codes) i f u = ground (arith, spent_count-mark_used c now codes i)

is_usable-used_at : (i : IssuedCode) (now : ℤ) → is_usable i now ≡ true → i.used_at ≡ none
unfolding is_usable issued_status status
is_usable-used_at i now h = ground arith

register-IsSound :
    (s : ServerState) (r : Registration) (now : ℤ) (address : Ipv4Addr)
    → Admits s r now address
    → IsSound s
    → IsSound (register s r address now)
unfolding register
register-IsSound s r now address a v =
    let (device, other, unused, lowest) =
      allocate-lowest_free s.subnet (peer_addresses s.peers) a.allocated in
    record {
      names =
          subst Distinct (sym (map-append (λ (p : Peer). p.name) s.peers _))
            (Distinct-snoc (peer_names s.peers) r.name v.names a.fresh);
      addresses =
          subst Distinct (sym (map-append (λ (p : Peer). p.address) s.peers _))
            (Distinct-snoc (peer_addresses s.peers) address v.addresses unused);
      devices = All-snoc s.subnet s.peers (new_peer r address now) v.devices device;
      hub = v.hub;
      codes = subst Distinct (sym (issued_codes-mark_used r.code now s.codes)) v.codes;
      spent = omega (
        arith,
        v.spent,
        length-append s.peers (new_peer r address now ∷ []),
        spent_count-mark_used r.code now s.codes a.issued a.found
            (is_usable-used_at a.issued now a.live),
      );
    }

pub add_peer-IsSound :
    (s : ServerState) (r : Registration) (now : ℤ) → IsSound s → IsSound (add_peer s r now).0
add_peer-IsSound s r now v = elim (Result-cases (add_peer s r now).1) [
  | inl (p, e) ↦
      let (a, same) = add_peer-Admits s r now e in
      subst IsSound (sym (ap (λ t. t.0) (Admits-add_peer s r now a)))
        (register-IsSound s r now p.address a v)
  | inr (e, h) ↦ subst IsSound (sym (add_peer-rejected s r now h).0) v
]

devices-remove_first :
    (subnet : Subnet) (name : DeviceName) (ps : List Peer)
    → AllDevices subnet ps
    → AllDevices subnet (remove_first name ps)
unfolding remove_first
devices-remove_first subnet name [] h = tt
devices-remove_first subnet name (p ∷ ps) h = elim (Bool-cases (p.name == name)) [
  | inl here ↦ rw (here, remove_first) h.1
  | inr other ↦ rw (other, remove_first) (h.0, devices-remove_first subnet name ps h.1)
]

length-remove_first-le :
    (name : DeviceName) (ps : List Peer) → length (remove_first name ps) ≤ length ps
unfolding remove_first
length-remove_first-le name [] = omega arith
length-remove_first-le name (p ∷ ps) = ground (arith, length-remove_first-le name ps)

without-IsSound :
    (s : ServerState) (name : DeviceName)
    → IsSound s
    → IsSound (record s { peers = remove_first name s.peers })
without-IsSound s name v = record {
  names = Distinct-remove_first (λ (p : Peer). p.name) name s.peers v.names;
  addresses = Distinct-remove_first (λ (p : Peer). p.address) name s.peers v.addresses;
  devices = devices-remove_first s.subnet name s.peers v.devices;
  hub = v.hub;
  codes = v.codes;
  spent = omega (arith, v.spent, length-remove_first-le name s.peers);
}

pub remove_peer-IsSound :
    (s : ServerState) (name : DeviceName) → IsSound s → IsSound (remove_peer s name).0
unfolding remove_peer
remove_peer-IsSound s name v = elim (Option-cases (peer s name)) [
  | inl e ↦ rw (e, remove_peer) v
  | inr (p, e) ↦ rw (e, remove_peer) (without-IsSound s name v)
]

spent_count-append :
    (codes : List IssuedCode) (i : IssuedCode) → spent_count codes ≤ spent_count (codes ++ i ∷ [])
spent_count-append [] i = omega arith
spent_count-append (j ∷ codes) i = ground (arith, spent_count-append codes i)

pub issue-IsSound :
    (s : ServerState) (code : JoinCode) (now ttl_secs : ℤ)
    → contains (issued_codes s.codes) code ≡ false
    → IsSound s
    → IsSound (issue s code now ttl_secs).0
unfolding issue Code.issue
issue-IsSound s code now ttl n v = record {
  names = v.names;
  addresses = v.addresses;
  devices = v.devices;
  hub = v.hub;
  codes =
      subst Distinct (sym (map-append (λ (i : IssuedCode). i.code) s.codes _))
        (Distinct-snoc (issued_codes s.codes) code v.codes n);
  spent = omega (arith, v.spent, spent_count-append s.codes (Code.issue code now ttl));
}

devices-touch_first :
    (subnet : Subnet) (name : DeviceName) (now : ℤ) (ps : List Peer)
    → AllDevices subnet ps
    → AllDevices subnet (touch_first name now ps)
unfolding touch_first
devices-touch_first subnet name now [] h = tt
devices-touch_first subnet name now (p ∷ ps) h = elim (Bool-cases (p.name == name)) [
  | inl here ↦ rw (here, touch_first) h
  | inr other ↦ rw (other, touch_first) (h.0, devices-touch_first subnet name now ps h.1)
]

length-touch_first :
    (name : DeviceName) (now : ℤ) (ps : List Peer) → length (touch_first name now ps) ≡ length ps
unfolding touch_first
length-touch_first name now [] = refl
length-touch_first name now (p ∷ ps) = ground (arith, length-touch_first name now ps)

pub touch_last_seen-IsSound :
    (s : ServerState) (name : DeviceName) (now : ℤ)
    → IsSound s
    → IsSound (touch_last_seen s name now)
unfolding touch_last_seen
touch_last_seen-IsSound s name now v = record {
  names = subst Distinct (sym (peer_names-touch_first name now s.peers)) v.names;
  addresses = subst Distinct (sym (peer_addresses-touch_first name now s.peers)) v.addresses;
  devices = devices-touch_first s.subnet name now s.peers v.devices;
  hub = v.hub;
  codes = v.codes;
  spent = omega (arith, v.spent, length-touch_first name now s.peers);
}
