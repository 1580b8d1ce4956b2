-- ===== src/Api/Answers.antt =====
-- The outcomes of a request (crates/anago/src/api.rs): refused, or answered and stored.
use anago.Prelude.{
  ◌≡◌, refl, ap, ◌⊎◌, inl, inr, Option, none, list_eq, nat_eq, Result, ok, err, Result-cases,
  Option-cases,
}
use anago.Prelude.Int.{ℤ}
use anago.Text.{Text, lit}
use anago.Name.{DeviceName}
use anago.Token.{DeviceToken, token_from_bytes}
use anago.State.{ServerState}
use anago.Store.{whole, lock}
use anago.Store.Atomic.{write_private-cases, lock-some}
use anago.Proto.{JoinRequest, JoinResponse, ApiError}
use anago.Api.{Env, hash_token, bearer_token, authenticate, decide_join}
use anago.Api.Handlers.{Io, Files, commit_or, internal_error, with_caller, join_device}

-- A request that is refused: the file is as before.
abbrev pub Refused : {A : Type 0} → Files → Files × Result ApiError A → Type 0
Refused d r = (e : ApiError) × (r.1 ≡ err e) × (r.0.file ≡ d.file)

-- A request that is answered: the file holds the state after it, whole, and nothing is beside it.
abbrev pub Stored : {A : Type 0} → ServerState → A → Files × Result ApiError A → Type 0
Stored after body r = r ≡ (record { file = whole after; temp = none }, ok body)

commit_or-cases :
    {A : Type 0} (io : Io) (d : Files) (after : ServerState) (body : A) (message : Text)
    → Refused d (commit_or io d after body message)
      ⊎ Stored after body (commit_or io d after body message)
commit_or-cases io d after body message = elim (write_private-cases io.calls d after) [
  | inl done ↦ inr (rw done refl)
  | inr (failed, same) ↦ inl (internal_error message, rw failed refl, same)
]

-- An authenticated request that was answered.
pub record Answers (A : Type 0) (env : Env) (d : Files) (header : Option (Option Text)) (now : ℤ)
    (change : ServerState → DeviceName → ℤ → ServerState × Result ApiError A) (after : ServerState)
    (body : A) : Type 0 where
  pub state : ServerState
  pub before : d.file ≡ whole state
  pub token : DeviceToken
  pub caller : DeviceName
  pub bearer : bearer_token header ≡ ok token
  pub known : authenticate env state token ≡ ok caller
  pub changed : change state caller now ≡ (after, ok body)

-- Either a request is refused and the file stays, or it was authenticated and the file holds what
-- the change made.
pub with_caller-cases :
    {A : Type 0} (env : Env) (io : Io) (d : Files) (header : Option (Option Text))
    (change : ServerState → DeviceName → ℤ → ServerState × Result ApiError A)
    → Refused d (with_caller env io d header change)
      ⊎ ((after : ServerState) × (body : A) × Stored after body (with_caller env io d header change)
          × Answers A env d header io.now change after body)
unfolding with_caller
with_caller-cases env io d header change = elim (Result-cases (bearer_token header)) [
  | inr (e, refused) ↦ inl (rw (refused, with_caller) (e, refl, refl))
  | inl (token, bearer) ↦ elim (Option-cases (lock io.held d)) [
    | inl busy ↦ inl (
        rw (bearer, with_caller, busy)
          (internal_error (lit "the server could not read its state"), refl, refl))
    | inr (s, locked) ↦ elim (Result-cases (authenticate env s token)) [
      | inr (e, unknown) ↦ inl (rw (bearer, with_caller, locked, unknown) (e, refl, refl))
      | inl (caller, known) ↦ elim (Result-cases (change s caller io.now).1) [
        | inr (e, failed) ↦ inl (rw (bearer, with_caller, locked, known, failed) (e, refl, refl))
        | inl (body, changed) ↦
            let message = lit "the server could not save its state" in
            elim (commit_or-cases io d (change s caller io.now).0 body message) [
              | inl full ↦ inl (rw (bearer, with_caller, locked, known, changed) full)
              | inr stored ↦ inr (
                (change s caller io.now).0,
                body,
                rw (bearer, with_caller, locked, known, changed) stored,
                record {
                  state = s;
                  before = lock-some io.held d locked;
                  token = token;
                  caller = caller;
                  bearer = bearer;
                  known = known;
                  changed = ap (λ x. ((change s caller io.now).0, x)) changed;
                },
              )
            ]
      ]
    ]
  ]
]

-- What `join_device` answered, and the decision behind it.
pub record JoinAnswers (env : Env) (d : Files) (now : ℤ) (after : ServerState)
    (response : JoinResponse) : Type 0 where
  pub state : ServerState
  pub before : d.file ≡ whole state
  pub request : JoinRequest
  pub token : DeviceToken
  pub decided :
      decide_join env state request token (hash_token env token) now ≡ (after, ok response)

pub join_device-cases :
    (env : Env) (io : Io) (d : Files) (body : Result ApiError JoinRequest)
    → Refused d (join_device env io d body)
      ⊎ ((after : ServerState) × (response : JoinResponse) × Stored after response
            (join_device env io d body)
          × JoinAnswers env d io.now after response)
unfolding join_device
join_device-cases env io d (err e) = inl (e, refl, refl)
join_device-cases env io d (ok request) = elim (Option-cases io.random) [
  | inl dry ↦ inl (
      rw (dry, join_device)
        (internal_error (lit "the server could not generate a token"), refl, refl))
  | inr (bytes, drawn) ↦ elim (Option-cases (lock io.held d)) [
    | inl busy ↦ inl (
        rw (drawn, join_device, busy)
          (internal_error (lit "the server could not read its state"), refl, refl))
    | inr (s, locked) ↦
        let token = token_from_bytes bytes in
        let decision = decide_join env s request token (hash_token env token) io.now in
        elim (Result-cases decision.1) [
          | inr (e, failed) ↦ inl (rw (drawn, join_device, locked, failed) (e, refl, refl))
          | inl (response, joined) ↦
              let message = lit "the server could not save the new device" in
              elim (commit_or-cases io d decision.0 response message) [
                | inl full ↦ inl (rw (drawn, join_device, locked, joined) full)
                | inr stored ↦ inr (
                  decision.0,
                  response,
                  rw (drawn, join_device, locked, joined) stored,
                  record {
                    state = s;
                    before = lock-some io.held d locked;
                    request = request;
                    token = token;
                    decided = ap (λ x. (decision.0, x)) joined;
                  },
                )
              ]
        ]
  ]
]
