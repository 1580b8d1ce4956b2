-- ===== src/State/Remove.antt =====
-- `remove_peer` (crates/anago-core/src/state.rs): what goes, and what stays.
use anago.Prelude.{
  suc, ◌≡◌, ◌≢◌, refl, sym, ap, subst, ◌∙◌, ◌⊎◌, inl, inr, true, false, List, [], ◌∷◌, none, some,
  arith, ◌==◌, length, contains, contains_self, ◌||◌, Distinct, Eq, map, find, Bool-cases,
  Option-cases,
}
use anago.Ipv4.{addr_eq}
use anago.Name.{DeviceName, name_eq, name_beq_iff}
use anago.State.{Peer, ServerState, peer, remove_first, remove_peer, peer_names, peer_addresses}
use anago.State.Invariant.{IsSound}

-- The devices before, without the one that is found.
pub record IsWithout (before after : List Peer) (p : Peer) : Type 0 where
  pub fewer : suc (length after) ≡ length before
  pub name_gone : contains (peer_names after) p.name ≡ false
  pub address_gone : contains (peer_addresses after) p.address ≡ false
  pub others :
      (name : DeviceName)
      → name ≢ p.name
      → find (λ (q : Peer). q.name == name) after ≡ find (λ (q : Peer). q.name == name) before

module _ {B : Type 0} ⦃e : Eq B⦄ (f : Peer → B) where
  contains-remove_first :
      (name : DeviceName) (b : B) (ps : List Peer)
      → contains (map f ps) b ≡ false
      → contains (map f (remove_first name ps)) b ≡ false
  unfolding remove_first
  contains-remove_first name b [] h = refl
  contains-remove_first name b (p ∷ ps) h = elim (Bool-cases (p.name == name)) [
    | inl here ↦ rw (here, remove_first) (ground arith)
    | inr other ↦ rw (other, remove_first) (ground (arith, contains-remove_first name b ps))
  ]

  pub Distinct-remove_first :
      (name : DeviceName) (ps : List Peer)
      → Distinct (map f ps)
      → Distinct (map f (remove_first name ps))
  unfolding remove_first
  Distinct-remove_first name [] h = tt
  Distinct-remove_first name (p ∷ ps) h = elim (Bool-cases (p.name == name)) [
    | inl here ↦ rw (here, remove_first) h.1
    | inr other ↦
        rw (other, remove_first)
          (contains-remove_first name (f p) ps h.0, Distinct-remove_first name ps h.1)
  ]

  found-contains :
      (name : DeviceName) (ps : List Peer) {p : Peer}
      → find (λ (q : Peer). q.name == name) ps ≡ some p
      → contains (map f ps) (f p) ≡ true
  found-contains name [] h = absurd (ground arith)
  found-contains name (q ∷ ps) {p} h = elim (Bool-cases (q.name == name)) [
    | inl here ↦
        let same : q ≡ p = ground (arith, rw here at h) in
        subst (λ x. (e.beq (f q) (f x) || contains (map f ps) (f x)) ≡ true) same
          (contains_self (f q) (map f ps))
    | inr other ↦
        let later : find (λ (q : Peer). q.name == name) ps ≡ some p = rw other at h in
        ground (arith, found-contains name ps later)
  ]

  -- What the device that goes had, nobody has any more.
  pub removed-contains :
      (name : DeviceName) (ps : List Peer) {p : Peer}
      → Distinct (map f ps)
      → find (λ (q : Peer). q.name == name) ps ≡ some p
      → contains (map f (remove_first name ps)) (f p) ≡ false
  unfolding remove_first
  removed-contains name [] d h = absurd (ground arith)
  removed-contains name (q ∷ ps) {p} d h = elim (Bool-cases (q.name == name)) [
    | inl here ↦
        let same : q ≡ p = ground (arith, rw here at h) in
        rw (here, remove_first) (subst (λ x. contains (map f ps) (f x) ≡ false) same d.0)
    | inr other ↦
        let later : find (λ (q : Peer). q.name == name) ps ≡ some p = rw other at h in
        rw (other, remove_first)
          (ground (
            arith,
            d.0,
            e.beq_iff (f q) (f p),
            found-contains name ps later,
            removed-contains name ps d.1 later,
          ))
  ]

length-remove_first :
    (name : DeviceName) (ps : List Peer) {p : Peer}
    → find (λ (q : Peer). q.name == name) ps ≡ some p
    → suc (length (remove_first name ps)) ≡ length ps
unfolding remove_first
length-remove_first name [] h = absurd (ground arith)
length-remove_first name (q ∷ ps) {p} h = elim (Bool-cases (q.name == name)) [
  | inl here ↦ rw (here, remove_first) refl
  | inr other ↦
      let later : find (λ (q : Peer). q.name == name) ps ≡ some p = rw other at h in
      rw (other, remove_first) (ap suc (length-remove_first name ps later))
]

find-name :
    (name : DeviceName) (ps : List Peer) {p : Peer}
    → find (λ (q : Peer). q.name == name) ps ≡ some p
    → p.name ≡ name
find-name name [] h = absurd (ground arith)
find-name name (q ∷ ps) {p} h = elim (Bool-cases (q.name == name)) [
  | inl here ↦
      let same : q ≡ p = ground (arith, rw here at h) in
      subst (λ (x : Peer). x.name ≡ name) same ((name_beq_iff q.name name).0 here)
  | inr other ↦ find-name name ps (rw other at h)
]

find-remove_first :
    (name other : DeviceName) (ps : List Peer)
    → other ≢ name
    → find (λ (q : Peer). q.name == other) (remove_first name ps)
      ≡ find (λ (q : Peer). q.name == other) ps
unfolding remove_first
find-remove_first name other [] n = refl
find-remove_first name other (q ∷ ps) n =
    ground (
      arith,
      name_beq_iff q.name name,
      name_beq_iff q.name other,
      find-remove_first name other ps n,
    )

-- In a sound state (`IsSound`, which every state that is reached from `server init` is; a state file
-- that repeats a name or an address is not): removing a device that is registered takes that one
-- away: neither its name nor its address is in use afterwards, every other name leads to the same
-- device as before, and nothing but the list of devices changes. Removing a name that nobody has
-- changes nothing.
pub remove_peer-IsWithout :
    (s : ServerState) (name : DeviceName)
    → IsSound s
    → ((peer s name ≡ none) × (remove_peer s name ≡ (s, none)))
      ⊎ ((p : Peer) × (p.name ≡ name)
          × ((remove_peer s name).1 ≡ some p)
          × IsWithout s.peers (remove_peer s name).0.peers p
          × ((remove_peer s name).0 ≡ record s { peers = (remove_peer s name).0.peers }))
unfolding remove_peer peer
remove_peer-IsWithout s name v = elim (Option-cases (peer s name)) [
  | inl e ↦ inl (e, rw (e, remove_peer))
  | inr (p, e) ↦
      let named : p.name ≡ name = find-name name s.peers e in
      inr (
        p,
        named,
        rw (e, remove_peer),
        rw (e, remove_peer)
            (record {
              fewer = length-remove_first name s.peers e;
              name_gone = removed-contains (λ (q : Peer). q.name) name s.peers v.names e;
              address_gone = removed-contains (λ (q : Peer). q.address) name s.peers v.addresses e;
              others = λ other n. find-remove_first name other s.peers (λ k. n (k ∙ sym named));
            }),
        rw (e, remove_peer),
      )
]
