-- ===== src/Api/Requests.antt =====
-- What a request leaves in the state file (crates/anago/src/api.rs).
use anago.Prelude.{
  ◌≡◌, sym, ap, subst, ◌∙◌, inl, inr, Option, ◌==◌, list_eq, nat_eq, arith, Result, err,
  Result-cases, Bool-cases, Option-cases,
}
use anago.Prelude.Int.{ℤ}
use anago.Text.{Text}
use anago.Name
use anago.Name.{DeviceName}
use anago.State.{ServerState, remove_peer}
use anago.State.Invariant.{IsSound}
use anago.State.Reach.{Reach, here, next, join, remove, touch, Reach-IsSound}
use anago.Store.{Content, whole}
use anago.Proto.{JoinRequest, ApiError}
use anago.Api.{Env, hash_token, decide_remove}
use anago.Api.Join.{decide_join-Joins}
use anago.Api.Answers.{Refused, Stored, with_caller-cases, join_device-cases}
use anago.Api.Handlers.{Io, Files, change_peers, change_remove, peers, remove_device, join_device}

Stored-ne-err :
    {A : Type 0} (after : ServerState) (body : A) (r : Files × Result ApiError A) {e : ApiError}
    → Stored after body r
    → r.1 ≡ err e
    → ⊥
Stored-ne-err after body r same h = ground (arith, ap (λ t. t.1) same, h)

-- A request that is refused, for whatever reason, from a missing header to a write that fails in any
-- of its calls, leaves the state file as it was.
pub refused-unchanged :
    (env : Env) (io : Io) (d : Files) (header : Option (Option Text)) (name : Text)
    (body : Result ApiError JoinRequest) {e : ApiError}
    → ((peers env io d header).1 ≡ err e → (peers env io d header).0.file ≡ d.file)
      × ((remove_device env io d header name).1 ≡ err e
          → (remove_device env io d header name).0.file ≡ d.file)
      × ((join_device env io d body).1 ≡ err e → (join_device env io d body).0.file ≡ d.file)
unfolding peers remove_device
refused-unchanged env io d header name body = (
  λ h. elim (with_caller-cases env io d header change_peers) [
    | inl (x, told, same) ↦ same
    | inr (after, b, stored, answers) ↦ absurd (Stored-ne-err after b _ stored h)
  ],
  λ h. elim (with_caller-cases env io d header (change_remove env name)) [
    | inl (x, told, same) ↦ same
    | inr (after, b, stored, answers) ↦ absurd (Stored-ne-err after b _ stored h)
  ],
  λ h. elim (join_device-cases env io d body) [
    | inl (x, told, same) ↦ same
    | inr (after, b, stored, answers) ↦ absurd (Stored-ne-err after b _ stored h)
  ],
)

decide_remove-Reach :
    (env : Env) (s : ServerState) (name : Text) → Reach s (decide_remove env s name).0
unfolding decide_remove
decide_remove-Reach env s name = elim (Result-cases (Name.parse env.unicode name)) [
  | inr (e, bad) ↦ rw (bad, decide_remove) here
  | inl (parsed, good) ↦ elim (Option-cases (remove_peer s parsed).1) [
    | inl missing ↦ rw (good, decide_remove, missing) (next here (remove s parsed))
    | inr (p, found) ↦ rw (good, decide_remove, found) (next here (remove s parsed))
  ]
]

change_remove-Reach :
    (env : Env) (s : ServerState) (name : Text) (caller : DeviceName) (now : ℤ)
    → Reach s (change_remove env name s caller now).0
unfolding change_remove
change_remove-Reach env s name caller now =
    let gone = decide_remove-Reach env s name in
    elim (Result-cases (decide_remove env s name).1) [
      | inr (e, bad) ↦ rw (bad, change_remove) gone
      | inl (p, good) ↦ elim (Bool-cases (p.name == caller.text)) [
        | inl self ↦ rw (good, change_remove, self) gone
        | inr other ↦ rw (good, change_remove, other) (next gone (touch _ caller now))
      ]
    ]

-- The file holds a whole state that is reached from the one before, and that is sound.
abbrev pub Leads : ServerState → Files → Type 0
Leads s d = (t : ServerState) × (d.file ≡ whole t) × Reach s t × IsSound t

module _ (d : Files) (s : ServerState) (holds : d.file ≡ whole s) (sound : IsSound s) where
  Refused-Leads : {A : Type 0} (r : Files × Result ApiError A) → Refused d r → Leads s r.0
  Refused-Leads r (e, told, same) = (s, same ∙ holds, here, sound)

  Stored-Leads :
      {A : Type 0} (after : ServerState) (body : A) (r : Files × Result ApiError A)
      → Stored after body r
      → Reach s after
      → Leads s r.0
  Stored-Leads after body r same reach =
      (after, ap (λ t. t.0.file) same, reach, Reach-IsSound sound reach)

  same_state : {t : ServerState} → d.file ≡ whole t → t ≡ s
  same_state {t} h =
      let same : Path (Content ServerState) (whole t) (whole s) = sym h ∙ holds in ground arith

  peers-Leads :
      (env : Env) (io : Io) (header : Option (Option Text)) → Leads s (peers env io d header).0
  unfolding peers
  peers-Leads env io header = elim (with_caller-cases env io d header change_peers) [
    | inl refused ↦ Refused-Leads (peers env io d header) refused
    | inr (after, b, stored, answers) ↦ Stored-Leads after b _ stored (
        subst (λ t. Reach t after) (same_state answers.before)
          (subst (Reach answers.state) (ap (λ t. t.0) answers.changed)
            (next here (touch answers.state answers.caller io.now))))
  ]

  remove_device-Leads :
      (env : Env) (io : Io) (header : Option (Option Text)) (name : Text)
      → Leads s (remove_device env io d header name).0
  unfolding remove_device
  remove_device-Leads env io header name =
      elim (with_caller-cases env io d header (change_remove env name)) [
        | inl refused ↦ Refused-Leads (remove_device env io d header name) refused
        | inr (after, b, stored, answers) ↦ Stored-Leads after b _ stored (
            subst (λ t. Reach t after) (same_state answers.before)
              (subst (Reach answers.state) (ap (λ t. t.0) answers.changed)
                (change_remove-Reach env answers.state name answers.caller io.now)))
      ]

  join_device-Leads :
      (env : Env) (io : Io) (body : Result ApiError JoinRequest)
      → Leads s (join_device env io d body).0
  join_device-Leads env io body = elim (join_device-cases env io d body) [
    | inl refused ↦ Refused-Leads (join_device env io d body) refused
    | inr (after, response, stored, a) ↦
        let j =
          decide_join-Joins env a.state a.request a.token (hash_token env a.token) io.now
            (ap (λ t. t.1) a.decided) in
        Stored-Leads after response _ stored (
          subst (λ t. Reach t after) (same_state a.before)
            (subst (Reach a.state) (ap (λ t. t.0) j.joined ∙ sym j.after ∙ ap (λ t. t.0) a.decided)
              (next here (join a.state j.registration io.now))))
  ]

-- Where the state file holds a sound state, every request, answered or refused, leaves a whole state
-- in it that is reached from the one before along changes of the hub's life, and that is sound again.
pub requests-Reach :
    (env : Env) (io : Io) (d : Files) (s : ServerState) (header : Option (Option Text))
    (name : Text) (body : Result ApiError JoinRequest)
    → d.file ≡ whole s
    → IsSound s
    → Leads s (peers env io d header).0
      × Leads s (remove_device env io d header name).0
      × Leads s (join_device env io d body).0
requests-Reach env io d s header name body holds sound = (
  peers-Leads d s holds sound env io header,
  remove_device-Leads d s holds sound env io header name,
  join_device-Leads d s holds sound env io body,
)
