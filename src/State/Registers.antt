-- ===== src/State/Registers.antt =====
-- `add_peer` (crates/anago-core/src/state.rs) against a description of what it does.
use anago.Prelude.{
  ℕ, ◌≤◌, ◌<◌, ◌≡◌, refl, sym, ap, subst, ◌∙◌, ◌↔◌, true, false, List, [], ◌∷◌, ◌++◌, none, some,
  arith, ◌==◌, contains, ok, Bool-cases, Option-cases, inl, inr,
}
use anago.Prelude.Int.{ℤ}
use anago.Prelude.I64.{◌<ℤ◌}
use anago.Ipv4.{addr_eq}
use anago.Subnet.{address_of}
use anago.Subnet.Alloc.{IsDeviceAddress, allocate-lowest_free, lowest_free-allocate}
use anago.Name.{name_eq}
use anago.Code.{JoinCode, code_eq, code_beq_iff, IssuedCode, is_usable, issued_status, status}
use anago.State.{
  Peer, ServerState, Registration, find_code, mark_used, issued_codes, peer_names, peer_addresses,
  new_peer, register, add_peer,
}
use anago.State.Join.{Admits, Admits-add_peer, add_peer-Admits}

-- The first entry of the code is not used and not expired, no device has the name, and the address
-- is the lowest free one. The device is appended with what was asked for, the entry gets the time,
-- and all else is as it was.
pub record Registers (s : ServerState) (r : Registration) (now : ℤ) (after : ServerState) (p : Peer)
    : Type 0 where
  pub before : List IssuedCode
  pub entry : IssuedCode
  pub later : List IssuedCode
  pub codes_eq : s.codes ≡ before ++ entry ∷ later
  pub first : contains (issued_codes before) r.code ≡ false
  pub offered : entry.code ≡ r.code
  pub unused : entry.used_at ≡ none
  pub unexpired : now <ℤ entry.expires
  pub fresh : contains (peer_names s.peers) r.name ≡ false
  pub device : IsDeviceAddress s.subnet p.address
  pub free : contains (peer_addresses s.peers) p.address ≡ false
  pub lowest :
      (m : ℕ)
      → 2 ≤ m
      → m < p.address.d
      → contains (peer_addresses s.peers) (address_of s.subnet m) ≡ true
  pub peer_eq : p ≡ record {
    name = r.name;
    public_key = r.public_key;
    address = p.address;
    token_hash = r.token_hash;
    created_at = now;
    last_seen = none;
  }
  pub after_eq : after ≡ record s {
    peers = s.peers ++ p ∷ [];
    codes = before ++ record entry { used_at = some now } ∷ later;
  }

is_usable_iff :
    (i : IssuedCode) (now : ℤ)
    → (is_usable i now ≡ true) ↔ ((i.used_at ≡ none) × (now <ℤ i.expires))
unfolding is_usable issued_status status
is_usable_iff i now = elim (Option-cases i.used_at) [
  | inl e ↦ ground arith
  | inr (at, e) ↦ ground arith
]

-- Where a code is found, and what marking it does.
record Found (code : JoinCode) (now : ℤ) (codes : List IssuedCode) (entry : IssuedCode)
    : Type 0 where
  before : List IssuedCode
  later : List IssuedCode
  codes_eq : codes ≡ before ++ entry ∷ later
  first : contains (issued_codes before) code ≡ false
  offered : entry.code ≡ code
  marked : mark_used code now codes ≡ before ++ record entry { used_at = some now } ∷ later

find_code-Found :
    (code : JoinCode) (now : ℤ) (codes : List IssuedCode) {entry : IssuedCode}
    → find_code code codes ≡ some entry
    → Found code now codes entry
unfolding find_code mark_used
find_code-Found code now [] h = absurd (ground arith)
find_code-Found code now (i ∷ codes) {entry} h = elim (Bool-cases (i.code == code)) [
  | inl here ↦
      let same : i ≡ entry = ground (arith, rw here at h) in
      subst (Found code now (i ∷ codes)) same (record {
        before = [];
        later = codes;
        codes_eq = refl;
        first = refl;
        offered = (code_beq_iff i.code code).0 here;
        marked = rw (here, mark_used) refl;
      })
  | inr other ↦
      let rest = find_code-Found code now codes {entry = entry} (rw other at h) in
      record {
        before = i ∷ rest.before;
        later = rest.later;
        codes_eq = ap (λ t. i ∷ t) rest.codes_eq;
        first = ground (arith, rest.first, other);
        offered = rest.offered;
        marked = rw (other, mark_used) (ap (λ t. i ∷ t) rest.marked);
      }
]

-- The first entry of a code is found, and marked.
first-Found :
    (code : JoinCode) (now : ℤ) (before : List IssuedCode) (entry : IssuedCode)
    (later : List IssuedCode)
    → contains (issued_codes before) code ≡ false
    → entry.code ≡ code
    → (find_code code (before ++ entry ∷ later) ≡ some entry)
      × (mark_used code now (before ++ entry ∷ later)
          ≡ before ++ record entry { used_at = some now } ∷ later)
unfolding find_code mark_used
first-Found code now [] entry later h e =
    let here : (entry.code == code) ≡ true = (code_beq_iff entry.code code).1 e in
    (rw here refl, rw here refl)
first-Found code now (i ∷ before) entry later h e =
    let other : (i.code == code) ≡ false = ground arith in
    let rest = first-Found code now before entry later (ground arith) e in
    (rw other rest.0, rw other (ap (λ t. i ∷ t) rest.1))

add_peer-Registers :
    (s : ServerState) (r : Registration) (now : ℤ) {after : ServerState} {p : Peer}
    → add_peer s r now ≡ (after, ok p)
    → Registers s r now after p
unfolding register
add_peer-Registers s r now {after} {p} h =
    let (a, spelt) = add_peer-Admits s r now (ap (λ t. t.1) h) in
    let f = find_code-Found r.code now s.codes {entry = a.issued} a.found in
    let live = (is_usable_iff a.issued now).0 a.live in
    let (device, ne, free, lowest) =
      allocate-lowest_free s.subnet (peer_addresses s.peers) a.allocated in
    let made : after ≡ register s r p.address now =
      sym (ap (λ t. t.0) h) ∙ ap (λ t. t.0) (Admits-add_peer s r now a) in
    record {
      before = f.before;
      entry = a.issued;
      later = f.later;
      codes_eq = f.codes_eq;
      first = f.first;
      offered = f.offered;
      unused = live.0;
      unexpired = live.1;
      fresh = a.fresh;
      device = device;
      free = free;
      lowest = lowest;
      peer_eq = spelt;
      after_eq =
          made
          ∙ ap (λ q. record s { peers = s.peers ++ q ∷ []; codes = mark_used r.code now s.codes })
              (sym spelt)
          ∙ ap (λ cs. record s { peers = s.peers ++ p ∷ []; codes = cs }) f.marked;
    }

Registers-add_peer :
    (s : ServerState) (r : Registration) (now : ℤ) {after : ServerState} {p : Peer}
    → Registers s r now after p
    → add_peer s r now ≡ (after, ok p)
unfolding register
Registers-add_peer s r now {after} {p} g =
    let (found, marked) = first-Found r.code now g.before g.entry g.later g.first g.offered in
    let admits : Admits s r now p.address = record {
      issued = g.entry;
      found = subst (λ cs. find_code r.code cs ≡ some g.entry) (sym g.codes_eq) found;
      live = (is_usable_iff g.entry now).1 (g.unused, g.unexpired);
      fresh = g.fresh;
      allocated =
          lowest_free-allocate s.subnet (peer_addresses s.peers) p.address g.device g.free g.lowest;
    } in
    let codes = ap (mark_used r.code now) g.codes_eq ∙ marked in
    let state : register s r p.address now ≡ after =
      ap (λ q. record s { peers = s.peers ++ q ∷ []; codes = mark_used r.code now s.codes })
        (sym g.peer_eq)
      ∙ ap (λ cs. record s { peers = s.peers ++ p ∷ []; codes = cs }) codes
      ∙ sym g.after_eq in
    Admits-add_peer s r now admits
    ∙ ap (λ t. (t, ok (new_peer r p.address now))) state
    ∙ ap (λ q. (after, ok q)) (sym g.peer_eq)

-- `add_peer` registers a device exactly if the first entry of the code was not used and expires
-- later than now, no device has the name, and a device address of the subnet is free. The device is
-- then the one asked for, at the lowest such address, created now and not yet seen; it is appended,
-- that entry gets the time of its use, and nothing else of the state changes.
pub add_peer-Registers_iff :
    (s : ServerState) (r : Registration) (now : ℤ) (after : ServerState) (p : Peer)
    → (add_peer s r now ≡ (after, ok p)) ↔ Registers s r now after p
add_peer-Registers_iff s r now after p = (add_peer-Registers s r now, Registers-add_peer s r now)
