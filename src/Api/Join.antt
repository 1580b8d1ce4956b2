-- ===== src/Api/Join.antt =====
-- `decide_join` and `decide_remove` of crates/anago/src/api.rs: what a caller gets and learns.
use anago.Prelude.{
  ◌≡◌, refl, sym, ap, subst, ◌∙◌, ◌⊎◌, inl, inr, [], ◌∷◌, ◌++◌, none, some, arith, Result, ok, err,
  Result-cases,
}
use anago.Prelude.Int.{ℤ}
use anago.Code
use anago.Code.{CodeStatus, usable}
use anago.Name
use anago.Name.{DeviceName, name_eq}
use anago.Token.{DeviceToken, TokenHash}
use anago.Token.Compare.{matches_iff}
use anago.State
use anago.State.{
  ServerState, Peer, Registration, JoinRejection, unknown_code, code_not_usable, add_peer, register,
  new_peer, peer_names,
}
use anago.State.Join.{add_peer-Admits, Admits-add_peer, add_peer-rejected, Reason}
use anago.Wg.{WgError, parse_key}
use anago.Proto.{
  JoinRequest, JoinResponse, invalid_name, invalid_public_key, name_taken, subnet_full, ApiError,
  error_code,
}
use anago.Api.{
  Env, hash_token, find_owner, authenticate, check_request, join_response, decide_join,
  invalid_code_error, rejection_error,
}
use anago.Api.Auth.{find_owner-snoc}

-- A registration that was joined: the state after it and the device that it made.
pub record Joins (env : Env) (s : ServerState) (request : JoinRequest) (token : DeviceToken)
    (hash : TokenHash) (now : ℤ) (response : JoinResponse) : Type 0 where
  pub registration : Registration
  pub checked : check_request env request hash ≡ ok registration
  pub device : Peer
  pub joined : add_peer s registration now ≡ (register s registration device.address now, ok device)
  pub spelt : device ≡ new_peer registration device.address now
  pub after :
      (decide_join env s request token hash now).0 ≡ register s registration device.address now
  pub answer : response ≡ join_response (register s registration device.address now) device token

pub decide_join-Joins :
    (env : Env) (s : ServerState) (request : JoinRequest) (token : DeviceToken) (hash : TokenHash)
    (now : ℤ) {response : JoinResponse}
    → (decide_join env s request token hash now).1 ≡ ok response
    → Joins env s request token hash now response
unfolding decide_join
decide_join-Joins env s request token hash now {response} h =
    elim (Result-cases (check_request env request hash)) [
      | inr (e, failed) ↦ absurd (ground arith)
      | inl (r, checked) ↦ elim (Result-cases (add_peer s r now).1) [
        | inr (e, failed) ↦ absurd (ground (arith, rw (checked, decide_join, failed) at h))
        | inl (p, joined) ↦
            let (a, spelt) = add_peer-Admits s r now joined in
            let whole : add_peer s r now ≡ (register s r p.address now, ok p) =
              Admits-add_peer s r now a
              ∙ ap (λ q. (register s r p.address now, ok q)) (sym spelt) in
            record {
              registration = r;
              checked = checked;
              device = p;
              joined = whole;
              spelt = spelt;
              after = rw (checked, decide_join, joined) (ap (λ t. t.0) whole);
              answer = ground (
                arith,
                rw (checked, decide_join, joined) at h,
                ap (λ t. join_response t.0 p token) whole,
              );
            }
      ]
    ]

-- A device that joins is let in from then on: the token of a successful join, hashed as the server
-- hashes it, authenticates as the very name that the response tells, whatever devices there are.
pub decide_join-authenticate :
    (env : Env) (s : ServerState) (request : JoinRequest) (token : DeviceToken) (now : ℤ)
    {response : JoinResponse}
    → (decide_join env s request token (hash_token env token) now).1 ≡ ok response
    → authenticate env (decide_join env s request token (hash_token env token) now).0 token
      ≡ ok (record { text = response.name })
unfolding authenticate register check_request
decide_join-authenticate env s request token now {response} h =
    let j = decide_join-Joins env s request token (hash_token env token) now h in
    let hashed : j.device.token_hash ≡ hash_token env token = ground (arith, j.spelt, j.checked) in
    let owner =
      find_owner-snoc (hash_token env token) s.peers j.device none
        ((matches_iff j.device.token_hash (hash_token env token)).1 hashed) in
    let found : find_owner (hash_token env token) none
          (register s j.registration j.device.address now).peers
        ≡ some j.device.name =
      subst (λ q. find_owner (hash_token env token) none (s.peers ++ q ∷ []) ≡ some j.device.name)
        j.spelt owner in
    let named : Path (Result ApiError DeviceName) (ok j.device.name)
        (ok (record { text = response.name })) =
      ap (λ (x : JoinResponse). ok (record { text = x.name })) (sym j.answer) in
    subst (λ t. authenticate env t token ≡ ok (record { text = response.name })) (sym j.after)
      (rw found named)

-- What a refusal says, by its code. Every code that cannot be redeemed, whether malformed, unknown,
-- used or expired, gets one and the same answer.
abbrev pub Refuses : Env → ServerState → JoinRequest → TokenHash → ℤ → ApiError → Type 0
Refuses env s request hash now e =
    ((e ≡ invalid_code_error)
      × (((x : Code.CodeError) × (Code.parse request.code ≡ err x))
          ⊎ ((r : Registration) × (check_request env request hash ≡ ok r)
              × (Reason s r now unknown_code
                  ⊎ ((status : CodeStatus) × Reason s r now (code_not_usable status))))))
    ⊎ ((e.code ≡ invalid_name)
        × ((x : Name.NameError) × (Name.parse env.unicode request.name ≡ err x)))
    ⊎ ((e.code ≡ invalid_public_key) × ((x : WgError) × (parse_key request.public_key ≡ err x)))
    ⊎ ((r : Registration) × (check_request env request hash ≡ ok r)
        × (((e.code ≡ name_taken) × Reason s r now State.name_taken)
            ⊎ ((e.code ≡ subnet_full) × Reason s r now State.subnet_full)))

check_request-Refuses :
    (env : Env) (s : ServerState) (request : JoinRequest) (hash : TokenHash) (now : ℤ)
    {e : ApiError}
    → check_request env request hash ≡ err e
    → Refuses env s request hash now e
unfolding check_request
check_request-Refuses env s request hash now {e} h = elim (Result-cases (Code.parse request.code)) [
  | inr (x, code) ↦ inl (ground (arith, rw (code, check_request) at h), inl (x, code))
  | inl (c, code) ↦ elim (Result-cases (Name.parse env.unicode request.name)) [
    | inr (x, name) ↦ inr (inl (ground (arith, rw (code, check_request, name) at h), (x, name)))
    | inl (n, name) ↦ elim (Result-cases (parse_key request.public_key)) [
      | inr (x, key) ↦
          inr (inr (inl (ground (arith, rw (code, check_request, name, key) at h), (x, key))))
      | inl (k, key) ↦ absurd (ground (arith, rw (code, check_request, name, key) at h))
    ]
  ]
]

rejected-Refuses :
    (env : Env) (s : ServerState) (request : JoinRequest) (hash : TokenHash) (now : ℤ)
    (r : Registration) (x : JoinRejection) {e : ApiError}
    → check_request env request hash ≡ ok r
    → Reason s r now x
    → rejection_error x ≡ e
    → Refuses env s request hash now e
unfolding rejection_error error_code
rejected-Refuses env s request hash now r unknown_code checked why h =
    inl (sym h, inr (r, checked, inl why))
rejected-Refuses env s request hash now r (code_not_usable status) checked why h =
    inl (sym h, inr (r, checked, inr (status, why)))
rejected-Refuses env s request hash now r State.name_taken checked why h =
    inr (inr (inr (r, checked, inl (ground arith, why))))
rejected-Refuses env s request hash now r State.subnet_full checked why h =
    inr (inr (inr (r, checked, inr (ground arith, why))))

-- A join that is refused leaves the state as it was and says why by its code alone: a name or a key
-- that does not parse, a name that is taken, no address left; and whatever is wrong with the code,
-- from a text that is no code to one that was used, the answer is the same to the letter.
pub decide_join-Refuses :
    (env : Env) (s : ServerState) (request : JoinRequest) (token : DeviceToken) (hash : TokenHash)
    (now : ℤ) {e : ApiError}
    → (decide_join env s request token hash now).1 ≡ err e
    → ((decide_join env s request token hash now).0 ≡ s) × Refuses env s request hash now e
unfolding decide_join
decide_join-Refuses env s request token hash now {e} h =
    elim (Result-cases (check_request env request hash)) [
      | inr (x, failed) ↦
          let same : x ≡ e = ground (arith, rw (failed, decide_join) at h) in
          (
            rw (failed, decide_join) refl,
            check_request-Refuses env s request hash now (failed ∙ ap err same),
          )
      | inl (r, checked) ↦ elim (Result-cases (add_peer s r now).1) [
        | inl (p, joined) ↦ absurd (ground (arith, rw (checked, decide_join, joined) at h))
        | inr (x, failed) ↦
            let (unchanged, why) = add_peer-rejected s r now failed in
            (
              rw (checked, decide_join, failed) unchanged,
              rejected-Refuses env s request hash now r x checked why
                  (ground (arith, rw (checked, decide_join, failed) at h)),
            )
      ]
    ]
