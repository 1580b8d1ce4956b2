-- ===== src/Api.antt =====
-- crates/anago/src/api.rs: what the endpoints decide, and what they leave in the state file.
pub mod Auth
pub mod Join
pub mod Handlers
pub mod Answers
pub mod Requests
mod Tests
use anago.Prelude.{
  ℕ, ◌≡◌, Bool, true, false, not, List, [], ◌∷◌, ◌++◌, map, Option, none, some, ◌==◌, list_eq,
  nat_eq, if◌then◌else◌, Result, ok, err, map_err, ok_or, ◌>>=◌,
}
use anago.Prelude.Int.{ℤ}
use anago.Text.{Text, lit, trim, trim_start, trim_end, strip_prefix}
use anago.Text.Decimal.{decimal}
use anago.Ipv4
use anago.Subnet
use anago.Subnet.{server_address}
use anago.Code
use anago.Name
use anago.Name.{Unicode, DeviceName}
use anago.Token.{DeviceToken, TokenHash, parse_token, hash_from_bytes, matches}
use anago.State
use anago.State.{
  ServerState, Peer, Registration, JoinRejection, unknown_code, code_not_usable, add_peer,
  remove_peer, touch_last_seen,
}
use anago.Wg.{parse_key}
use anago.Proto.{
  JoinRequest, JoinResponse, PeerInfo, HubInfo, PeersResponse, ErrorCode, invalid_code,
  invalid_name, invalid_public_key, unauthorized, not_found, internal, name_taken, subnet_full,
  bad_request, ApiError, error_code,
}

-- What lies outside: the digest of the token's bytes, Rust's tables, and what `{:?}` prints.
pub record Env : Type 0 where
  pub sha256 : List ℕ → List ℕ
  pub unicode : Unicode
  pub debug_char : ℕ → Text
  pub debug_str : Text → Text

abbrev pub invalid_code_error : ApiError
invalid_code_error = record { code = invalid_code; message = lit "that join code is not valid" }

abbrev pub unauthorized_error : ApiError
unauthorized_error = record {
  code = unauthorized;
  message = lit "a valid device token is required";
}

-- `secret::hash_token`; a token is ASCII, so its characters are its bytes.
abbrev pub hash_token : Env → DeviceToken → TokenHash
hash_token env token = hash_from_bytes (env.sha256 token.text)

-- An `Authorization` header: absent, not readable as text, or a text.
unfoldable pub bearer_token : Option (Option Text) → Result ApiError DeviceToken
bearer_token none = err unauthorized_error
bearer_token (some none) = err unauthorized_error
bearer_token (some (some value)) = elim (strip_prefix (lit "Bearer ") value) [
  | some token ↦ map_err (parse_token (trim token)) (λ e. unauthorized_error)
  | none ↦ elim (strip_prefix (lit "bearer ") value) [
    | some token ↦ map_err (parse_token (trim token)) (λ e. unauthorized_error)
    | none ↦ err unauthorized_error
  ]
]

-- The loop of `authenticate`: a later match replaces an earlier one.
unfoldable pub find_owner : TokenHash → Option DeviceName → List Peer → Option DeviceName
find_owner offered found [] = found
find_owner offered found (p ∷ ps) =
    find_owner offered (if matches p.token_hash offered then some p.name else found) ps

unfoldable pub authenticate : Env → ServerState → DeviceToken → Result ApiError DeviceName
authenticate env s token = ok_or (find_owner (hash_token env token) none s.peers) unauthorized_error

unfoldable pub server_endpoint : ServerState → Text
server_endpoint s = s.domain ++ b':' ∷ decimal s.listen_port

abbrev pub peer_info : Peer → PeerInfo
peer_info p = record {
  name = p.name.text;
  public_key = p.public_key;
  address = Ipv4.display p.address;
}

unfoldable pub decide_peers : ServerState → PeersResponse
decide_peers s = record {
  peers = map peer_info s.peers;
  hub = some (record {
    subnet = Subnet.display s.subnet;
    server_public_key = s.server.public_key;
    server_endpoint = server_endpoint s;
    server_address = Ipv4.display (server_address s.subnet);
  });
}

abbrev pub not_found_error : Env → Text → ApiError
not_found_error env name = record {
  code = not_found;
  message = lit "no device named " ++ env.debug_str name;
}

unfoldable pub decide_remove : Env → ServerState → Text → ServerState × Result ApiError PeerInfo
decide_remove env s name = elim (Name.parse env.unicode name) [
  | err e ↦ (s, err (not_found_error env name))
  | ok parsed ↦
      let (after, removed) = remove_peer s parsed in
      (elim removed [
        | none ↦ (after, err (not_found_error env name))
        | some p ↦ (after, ok (peer_info p))
      ])
]

-- `Display for JoinRejection`, of what is shown to a caller.
unfoldable pub display_rejection : JoinRejection → Text
display_rejection unknown_code = lit "no such join code"
display_rejection (code_not_usable Code.usable) = lit "join code is usable"
display_rejection (code_not_usable Code.used) = lit "join code is already used"
display_rejection (code_not_usable Code.expired) = lit "join code is expired"
display_rejection State.name_taken = lit "a device with that name is already registered"
display_rejection State.subnet_full = lit "no free address left in the subnet"

-- The `map_err` of `decide_join`: one answer to every code that cannot be redeemed.
unfoldable pub rejection_error : JoinRejection → ApiError
unfolding error_code
rejection_error r = elim (error_code r) [
  | invalid_code ↦ invalid_code_error
  | invalid_name ↦ record { code = error_code r; message = display_rejection r }
  | name_taken ↦ record { code = error_code r; message = display_rejection r }
  | invalid_public_key ↦ record { code = error_code r; message = display_rejection r }
  | subnet_full ↦ record { code = error_code r; message = display_rejection r }
  | unauthorized ↦ record { code = error_code r; message = display_rejection r }
  | not_found ↦ record { code = error_code r; message = display_rejection r }
  | bad_request ↦ record { code = error_code r; message = display_rejection r }
  | internal ↦ record { code = error_code r; message = display_rejection r }
]

-- The three parses of `decide_join`, in its order.
unfoldable pub check_request : Env → JoinRequest → TokenHash → Result ApiError Registration
check_request env request token_hash = do
  code ← map_err (Code.parse request.code) (λ e. invalid_code_error)
  name ←
      map_err (Name.parse env.unicode request.name)
        (λ e. record { code = invalid_name; message = Name.display_error env.debug_char e })
  public_key ← map_err (parse_key request.public_key) (λ e. record {
    code = invalid_public_key;
    message = lit "expected a WireGuard public key (44 base64 characters)";
  })
  ok (record { code = code; name = name; public_key = public_key; token_hash = token_hash })

abbrev pub join_response : ServerState → Peer → DeviceToken → JoinResponse
join_response s p token = record {
  name = p.name.text;
  address = Ipv4.display p.address;
  subnet = Subnet.display s.subnet;
  token = token.text;
  server_public_key = s.server.public_key;
  server_endpoint = server_endpoint s;
  server_address = Ipv4.display (server_address s.subnet);
}

unfoldable pub decide_join :
    Env
    → ServerState
    → JoinRequest
    → DeviceToken
    → TokenHash
    → ℤ
    → ServerState × Result ApiError JoinResponse
decide_join env s request token token_hash now = elim (check_request env request token_hash) [
  | err e ↦ (s, err e)
  | ok r ↦
      let (after, joined) = add_peer s r now in
      (elim joined [
        | err rejection ↦ (after, err (rejection_error rejection))
        | ok p ↦ (after, ok (join_response after p token))
      ])
]
