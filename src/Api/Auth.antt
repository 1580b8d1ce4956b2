-- ===== src/Api/Auth.antt =====
-- `authenticate` of crates/anago/src/api.rs: whose token it is, from a join to a removal.
use anago.Prelude.{
  ℕ, suc, ◌≡◌, refl, ap, subst, ◌∙◌, ◌↔◌, ◌⊎◌, inl, inr, Bool, true, false, List, [], ◌∷◌, ◌++◌,
  map, Option, none, some, ◌==◌, Eq, list_eq, nat_eq, list_beq_iff, arith, ok, err, contains,
  Distinct, get_elem?, Bool-cases, Option-cases,
}
use anago.Name.{DeviceName, name_eq}
use anago.Token.{DeviceToken, TokenHash, matches}
use anago.Token.Compare.{matches_iff}
use anago.State.{ServerState, Peer, remove_peer, remove_first, peer}
use anago.State.Remove.{removed-contains}
use anago.Api.{Env, hash_token, find_owner, authenticate, unauthorized_error}

abbrev pub hash_beq : TokenHash → TokenHash → Bool
hash_beq h k = h.hex == k.hex

pub hash_beq_iff : (h k : TokenHash) → (hash_beq h k ≡ true) ↔ (h ≡ k)
hash_beq_iff h k = ground (arith, list_beq_iff h.hex k.hex)

instance abbrev pub hash_eq : Eq TokenHash
hash_eq = record { beq = hash_beq; beq_iff = hash_beq_iff }

abbrev pub token_hashes : List Peer → List TokenHash
token_hashes = map (λ (p : Peer). p.token_hash)

-- The device at some position of the list has this name and this hash.
abbrev pub Owns : TokenHash → List Peer → DeviceName → Type 0
Owns h ps name =
    (i : ℕ) × (p : Peer) × (get_elem? ps i ≡ some p) × (p.name ≡ name) × (p.token_hash ≡ h)

later-Owns :
    (h : TokenHash) (p : Peer) (ps : List Peer) (name : DeviceName)
    → Owns h ps name
    → Owns h (p ∷ ps) name
later-Owns h p ps name (i, q, at, named, hashed) = (suc i, q, ground (arith, at), named, hashed)

find_owner-Owns :
    (h : TokenHash) (found : Option DeviceName) (ps : List Peer) {name : DeviceName}
    → find_owner h found ps ≡ some name
    → (found ≡ some name) ⊎ Owns h ps name
unfolding find_owner
find_owner-Owns h found [] e = inl e
find_owner-Owns h found (p ∷ ps) {name} e = elim (Bool-cases (matches p.token_hash h)) [
  | inl here ↦ elim (find_owner-Owns h (some p.name) ps (rw (here) at e)) [
    | inl same ↦ inr (0, p, refl, ground arith, (matches_iff p.token_hash h).0 here)
    | inr later ↦ inr (later-Owns h p ps name later)
  ]
  | inr other ↦ elim (find_owner-Owns h found ps (rw (other) at e)) [
    | inl same ↦ inl same
    | inr later ↦ inr (later-Owns h p ps name later)
  ]
]

find_owner-some :
    (h : TokenHash) (name : DeviceName) (ps : List Peer)
    → (other : DeviceName) × (find_owner h (some name) ps ≡ some other)
unfolding find_owner
find_owner-some h name [] = (name, refl)
find_owner-some h name (p ∷ ps) = elim (Bool-cases (matches p.token_hash h)) [
  | inl here ↦ rw here (find_owner-some h p.name ps)
  | inr other ↦ rw other (find_owner-some h name ps)
]

find_owner-none :
    (h : TokenHash) (ps : List Peer)
    → (find_owner h none ps ≡ none) ↔ (contains (token_hashes ps) h ≡ false)
unfolding find_owner
find_owner-none h [] = ground arith
find_owner-none h (p ∷ ps) =
    let taken = find_owner-some h p.name ps in
    ground (
      arith,
      taken.1,
      find_owner-none h ps,
      matches_iff p.token_hash h,
      hash_beq_iff p.token_hash h,
    )

pub find_owner-snoc :
    (h : TokenHash) (ps : List Peer) (p : Peer) (found : Option DeviceName)
    → matches p.token_hash h ≡ true
    → find_owner h found (ps ++ p ∷ []) ≡ some p.name
unfolding find_owner
find_owner-snoc h [] p found e = ground (arith, e)
find_owner-snoc h (q ∷ ps) p found e = find_owner-snoc h ps p _ e

-- A token is accepted as the name of a device that stores the token's hash, and refused, always in
-- the same words, exactly if no device stores it.
pub authenticate-Owns :
    (env : Env) (s : ServerState) (token : DeviceToken)
    → ((name : DeviceName)
        → authenticate env s token ≡ ok name
        → Owns (hash_token env token) s.peers name)
      × ((authenticate env s token ≡ err unauthorized_error)
          ↔ (contains (token_hashes s.peers) (hash_token env token) ≡ false))
unfolding authenticate
authenticate-Owns env s token = (
  λ name h.
      let found : find_owner (hash_token env token) none s.peers ≡ some name = ground arith in
      elim (find_owner-Owns (hash_token env token) none s.peers found) [
        | inl e ↦ absurd (ground arith)
        | inr owns ↦ owns
      ],
  ground (arith, find_owner-none (hash_token env token) s.peers),
)

-- The token of a device dies with it: as long as no two devices store the same hash, a token whose
-- device was removed is refused.
pub authenticate-remove_peer :
    (env : Env) (s : ServerState) (name : DeviceName) (token : DeviceToken) {p : Peer}
    → Distinct (token_hashes s.peers)
    → (remove_peer s name).1 ≡ some p
    → p.token_hash ≡ hash_token env token
    → authenticate env (remove_peer s name).0 token ≡ err unauthorized_error
unfolding remove_peer peer
authenticate-remove_peer env s name token {p} d h same = elim (Option-cases (peer s name)) [
  | inl e ↦ absurd (ground arith)
  | inr (q, e) ↦
      let found : q ≡ p = ground (arith, rw (e, remove_peer) at h) in
      let gone =
        subst (λ k. contains (token_hashes (remove_first name s.peers)) k ≡ false)
          (ap (λ (x : Peer). x.token_hash) found ∙ same)
          (removed-contains (λ (x : Peer). x.token_hash) name s.peers d e) in
      rw (e, remove_peer)
        ((authenticate-Owns env (record s { peers = remove_first name s.peers }) token).1.1 gone)
]
