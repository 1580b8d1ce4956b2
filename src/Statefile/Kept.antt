-- ===== src/Statefile/Kept.antt =====
-- Every change of the hub's state (crates/anago-core/src/state.rs) leaves one that the state file
-- carries, where the values that come in are in their canonical form.
use anago.Prelude.{
  ◌≡◌, sym, ap, subst, inl, inr, List, [], ◌∷◌, ◌++◌, All, Result-cases, ok, Bool-cases, ◌==◌,
  Option-cases,
}
use anago.Prelude.Int.{ℤ}
use anago.Prelude.I64.{IsI64, saturating_add-IsI64}
use anago.Ipv4.{addr_eq}
use anago.Subnet
use anago.Subnet.{Subnet, server_address, has_address}
use anago.Subnet.Alloc.{allocate-lowest_free}
use anago.Subnet.Canonical.{parsed-display}
use anago.Name
use anago.Name.{Unicode, DeviceName, name_eq}
use anago.Token.{parse_hash}
use anago.Code
use anago.Code.{JoinCode, IssuedCode, code_eq, expires_at}
use anago.State.{
  Peer, ServerState, Registration, add_peer, register, mark_used, remove_peer, remove_first, issue,
  touch_last_seen, touch_first, peer, peer_addresses,
}
use anago.State.Join.{add_peer-Admits, Admits-add_peer, add_peer-rejected}
use anago.State.Reach.{Step, join, remove, issue_code, touch, Reach, here, next}
use anago.Device.Publish.{device-IsOctets}
use anago.Statefile.Whole.{to_json_string, parse_state}
use anago.Statefile.RoundTrip.{IsStored, IsStoredPeer, IsStoredCode}
use anago.Statefile.Written.{parse_state-to_json_string}

All-snoc :
    {A : Type 0} (P : A → Type 0) (xs : List A) (a : A) → All P xs → P a → All P (xs ++ a ∷ [])
All-snoc P [] a h k = (k, tt)
All-snoc P (x ∷ xs) a h k = (h.0, All-snoc P xs a h.1 k)

all-mark_used :
    (code : JoinCode) (now : ℤ) (cs : List IssuedCode)
    → IsI64 now
    → All IsStoredCode cs
    → All IsStoredCode (mark_used code now cs)
unfolding mark_used
all-mark_used code now [] n h = tt
all-mark_used code now (c ∷ cs) n h = elim (Bool-cases (c.code == code)) [
  | inl e ↦
      rw (mark_used, e)
        (
          record { code_eq = h.0.code_eq; issued = h.0.issued; expires = h.0.expires; used = n },
          h.1,
        )
  | inr e ↦ rw (mark_used, e) (h.0, all-mark_used code now cs n h.1)
]

all-remove_first :
    (P : Peer → Type 0) (name : DeviceName) (ps : List Peer)
    → All P ps
    → All P (remove_first name ps)
unfolding remove_first
all-remove_first P name [] h = tt
all-remove_first P name (p ∷ ps) h = elim (Bool-cases (p.name == name)) [
  | inl e ↦ rw (remove_first, e) h.1
  | inr e ↦ rw (remove_first, e) (h.0, all-remove_first P name ps h.1)
]

all-touch_first :
    (u : Unicode) (name : DeviceName) (now : ℤ) (ps : List Peer)
    → IsI64 now
    → All (IsStoredPeer u) ps
    → All (IsStoredPeer u) (touch_first name now ps)
unfolding touch_first
all-touch_first u name now [] n h = tt
all-touch_first u name now (p ∷ ps) n h = elim (Bool-cases (p.name == name)) [
  | inl e ↦
      rw (touch_first, e)
        (
          record {
            name_eq = h.0.name_eq;
            octets = h.0.octets;
            hash_eq = h.0.hash_eq;
            created = h.0.created;
            seen = n;
          },
          h.1,
        )
  | inr e ↦ rw (touch_first, e) (h.0, all-touch_first u name now ps n h.1)
]

-- A registration as the hub makes it, from a name that it parsed and a hash that it computed.
pub record IsCanonicalRegistration (u : Unicode) (r : Registration) : Type 0 where
  pub name_eq : Name.parse u r.name.text ≡ ok r.name
  pub hash_eq : parse_hash r.token_hash.hex ≡ ok r.token_hash

-- The devices and the codes change, the rest of a stored state stays.
with_lists :
    (u : Unicode) (s : ServerState) (ps : List Peer) (cs : List IssuedCode)
    → IsStored u s
    → All (IsStoredPeer u) ps
    → All IsStoredCode cs
    → IsStored u (record s { peers = ps; codes = cs })
with_lists u s ps cs h p c = record {
  subnet_eq = h.subnet_eq;
  address_eq = h.address_eq;
  octets = h.octets;
  listen = h.listen;
  api = h.api;
  expiry = h.expiry;
  times = h.times;
  peers_stored = p;
  codes_stored = c;
}

add_peer-IsStored :
    (u : Unicode) (s : ServerState) (r : Registration) (now : ℤ)
    → IsCanonicalRegistration u r
    → IsI64 now
    → IsStored u s
    → IsStored u (add_peer s r now).0
unfolding register
add_peer-IsStored u s r now c n h = elim (Result-cases (add_peer s r now).1) [
  | inr (e, k) ↦ subst (IsStored u) (sym (add_peer-rejected s r now k).0) h
  | inl (p, e) ↦
      let (a, same) = add_peer-Admits s r now e in
      let network = (parsed-display (Subnet.display s.subnet) h.subnet_eq).1 in
      let device = (allocate-lowest_free s.subnet (peer_addresses s.peers) a.allocated).0 in
      subst (IsStored u) (sym (ap (λ t. t.0) (Admits-add_peer s r now a))) (
        with_lists u s _ _ h
          (All-snoc (IsStoredPeer u) s.peers _ h.peers_stored (record {
            name_eq = c.name_eq;
            octets = device-IsOctets s.subnet p.address network device;
            hash_eq = c.hash_eq;
            created = n;
            seen = tt;
          }))
          (all-mark_used r.code now s.codes n h.codes_stored))
]

issued-IsStoredCode :
    (code : JoinCode) (now ttl : ℤ)
    → Code.parse code.text ≡ ok code
    → IsI64 now
    → IsStoredCode (Code.issue code now ttl)
unfolding Code.issue expires_at
issued-IsStoredCode code now ttl c n = record {
  code_eq = c;
  issued = n;
  expires = saturating_add-IsI64 now ttl;
  used = tt;
}

-- What comes in with a change is canonical, and the time of it an `i64`.
abbrev pub Fits : Unicode → {s t : ServerState} → Step s t → Type 0
Fits u (join s r now) = IsCanonicalRegistration u r × IsI64 now
Fits u (remove s name) = Unit
Fits u (issue_code s draw draws code now ttl h) = (Code.parse code.text ≡ ok code) × IsI64 now
Fits u (touch s name now) = IsI64 now

abbrev pub AllFit : Unicode → {s t : ServerState} → Reach s t → Type 0
AllFit u here = Unit
AllFit u (next r st) = AllFit u r × Fits u st

Step-IsStored :
    (u : Unicode) {s t : ServerState} (st : Step s t) → Fits u st → IsStored u s → IsStored u t
unfolding remove_peer issue touch_last_seen
Step-IsStored u (join s r now) f h = add_peer-IsStored u s r now f.0 f.1 h
Step-IsStored u (remove s name) f h = elim (Option-cases (peer s name)) [
  | inl e ↦ rw (remove_peer, e) h
  | inr (p, e) ↦
      rw (remove_peer, e)
        (with_lists u s _ _ h (all-remove_first (IsStoredPeer u) name s.peers h.peers_stored)
          h.codes_stored)
]
Step-IsStored u (issue_code s draw draws code now ttl k) f h =
    with_lists u s _ _ h h.peers_stored
      (All-snoc IsStoredCode s.codes _ h.codes_stored (issued-IsStoredCode code now ttl f.0 f.1))
Step-IsStored u (touch s name now) f h =
    with_lists u s _ _ h (all-touch_first u name now s.peers f h.peers_stored) h.codes_stored

-- A state that the file carries is followed by such states alone, where the names, hashes and codes
-- that come in are canonical and the times fit: after any sequence of joins, removals, new codes
-- and stamps the text of the file reads back as the state.
pub Reach-parse_state :
    (u : Unicode) {s t : ServerState} (r : Reach s t)
    → AllFit u r
    → IsStored u s
    → IsStored u t × (parse_state u (to_json_string t) ≡ ok t)
Reach-parse_state u {s} {t} r f h = let k = kept r f in (k, parse_state-to_json_string u t k)
  where
    kept : {x : ServerState} (r : Reach s x) → AllFit u r → IsStored u x
    kept here f = h
    kept (next q st) f = Step-IsStored u st f.1 (kept q f.0)
