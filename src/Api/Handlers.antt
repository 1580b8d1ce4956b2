-- ===== src/Api/Handlers.antt =====
-- The handlers of crates/anago/src/api.rs around the decisions: the lock of the state file, the
-- commit, and what is in the file afterwards.
use anago.Prelude.{
  ℕ, Bool, not, List, Option, none, some, ◌==◌, list_eq, nat_eq, if◌then◌else◌, Result, ok, err,
}
use anago.Prelude.Int.{ℤ}
use anago.Text.{Text, lit}
use anago.Name.{DeviceName}
use anago.Token.{token_from_bytes}
use anago.State.{ServerState, touch_last_seen}
use anago.Store.{Calls, Disk, lock, commit}
use anago.Proto.{JoinRequest, JoinResponse, PeerInfo, PeersResponse, ApiError, internal}
use anago.Api.{
  Env, hash_token, bearer_token, authenticate, decide_peers, decide_remove, decide_join,
}

-- What the machine answers during a request: whether the lock is got, which calls of the write
-- succeed, and the random bytes for a token, if there are any.
pub record Io : Type 0 where
  pub held : Bool
  pub calls : Calls
  pub random : Option (List ℕ)
  pub now : ℤ

-- The files before and after a request. The state file holds what `to_json_string` writes of a
-- state, which is read back as that state.
abbrev pub Files : Type 0
Files = Disk ServerState

abbrev pub internal_error : Text → ApiError
internal_error message = record { code = internal; message = message }

-- The commit, and the answer, or the error that is answered if it fails.
abbrev pub commit_or :
    {A : Type 0} → Io → Files → ServerState → A → Text → Files × Result ApiError A
commit_or io d after body message =
    let (files, done) = commit io.calls d after in
    (files, if done then ok body else err (internal_error message))

-- `with_caller`, with the files before and after. What is changed is the state in memory; a return
-- before the commit drops it.
unfoldable pub with_caller :
    {A : Type 0}
    → Env
    → Io
    → Files
    → Option (Option Text)
    → (ServerState → DeviceName → ℤ → ServerState × Result ApiError A)
    → Files × Result ApiError A
with_caller env io d header change = elim (bearer_token header) [
  | err e ↦ (d, err e)
  | ok token ↦ elim (lock io.held d) [
    | none ↦ (d, err (internal_error (lit "the server could not read its state")))
    | some s ↦ elim (authenticate env s token) [
      | err e ↦ (d, err e)
      | ok caller ↦
          let (after, answer) = change s caller io.now in
          (elim answer [
            | err e ↦ (d, err e)
            | ok body ↦ commit_or io d after body (lit "the server could not save its state")
          ])
    ]
  ]
]

-- The closure of `GET /peers`.
abbrev pub change_peers : ServerState → DeviceName → ℤ → ServerState × Result ApiError PeersResponse
change_peers s caller now =
    (touch_last_seen s caller now, ok (decide_peers (touch_last_seen s caller now)))

-- The closure of `DELETE /peers/{name}`: the caller is stamped unless it removed itself.
unfoldable pub change_remove :
    Env → Text → ServerState → DeviceName → ℤ → ServerState × Result ApiError PeerInfo
change_remove env name s caller now =
    let (after, removed) = decide_remove env s name in
    elim removed [
      | err e ↦ (after, err e)
      | ok p ↦
          if not (p.name == caller.text)
          then (touch_last_seen after caller now, ok p)
          else (after, ok p)
    ]

-- The handlers `peers`, `remove` and `join`; the body of a join is what `parse_body` makes of it.
unfoldable pub peers :
    Env → Io → Files → Option (Option Text) → Files × Result ApiError PeersResponse
peers env io d header = with_caller env io d header change_peers

unfoldable pub remove_device :
    Env → Io → Files → Option (Option Text) → Text → Files × Result ApiError PeerInfo
remove_device env io d header name = with_caller env io d header (change_remove env name)

unfoldable pub join_device :
    Env → Io → Files → Result ApiError JoinRequest → Files × Result ApiError JoinResponse
join_device env io d body = elim body [
  | err e ↦ (d, err e)
  | ok request ↦ elim io.random [
    | none ↦ (d, err (internal_error (lit "the server could not generate a token")))
    | some bytes ↦ elim (lock io.held d) [
      | none ↦ (d, err (internal_error (lit "the server could not read its state")))
      | some s ↦
          let token = token_from_bytes bytes in
          let (after, answer) = decide_join env s request token (hash_token env token) io.now in
          (elim answer [
            | err e ↦ (d, err e)
            | ok response ↦
                commit_or io d after response (lit "the server could not save the new device")
          ])
    ]
  ]
]
