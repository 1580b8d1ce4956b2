-- ===== src/Proto/Codec.antt =====
-- crates/anago-core/src/proto.rs: the JSON forms of the bodies.
use anago.Prelude.{
  ℕ, suc, Bool, true, false, not, List, [], ◌∷◌, ◌++◌, Option, none, some, map, Result, ok, err,
  ok_or, map_err, ◌>>=◌, find, if◌then◌else◌, nat_eq, ◌==◌,
}
use anago.Text.{Text, lit}
use anago.Text.Decimal.{decimal}
use anago.Json.{Value, str, arr, Items, nil, cons, Fields, get, literal_obj, items_of}
use anago.Proto
use anago.Proto.{JoinRequest, JoinResponse, PeerInfo, HubInfo, PeersResponse, ApiError, from_wire}
use anago.Proto.Fields.{
  DecodeError, decode_error, missing, unknown_value, within, object, string_field, array_field,
}

abbrev pub join_request_to_json : JoinRequest → Value
join_request_to_json r = literal_obj (
    (lit "code", str r.code) ∷ (lit "name", str r.name) ∷ (lit "public_key", str r.public_key) ∷ [])

unfoldable pub join_request_from_json : Value → Result DecodeError JoinRequest
join_request_from_json v = do
  fs ← object v
  code ← string_field fs (lit "code")
  name ← string_field fs (lit "name")
  public_key ← string_field fs (lit "public_key")
  ok (record { code = code; name = name; public_key = public_key })

abbrev pub join_response_to_json : JoinResponse → Value
join_response_to_json r = literal_obj (
    (lit "name", str r.name)
    ∷ (lit "address", str r.address)
    ∷ (lit "subnet", str r.subnet)
    ∷ (lit "token", str r.token)
    ∷ (lit "server_public_key", str r.server_public_key)
    ∷ (lit "server_endpoint", str r.server_endpoint)
    ∷ (lit "server_address", str r.server_address)
    ∷ [])

unfoldable pub join_response_from_json : Value → Result DecodeError JoinResponse
join_response_from_json v = do
  fs ← object v
  name ← string_field fs (lit "name")
  address ← string_field fs (lit "address")
  subnet ← string_field fs (lit "subnet")
  token ← string_field fs (lit "token")
  key ← string_field fs (lit "server_public_key")
  endpoint ← string_field fs (lit "server_endpoint")
  hub ← string_field fs (lit "server_address")
  ok (record {
    name = name;
    address = address;
    subnet = subnet;
    token = token;
    server_public_key = key;
    server_endpoint = endpoint;
    server_address = hub;
  })

abbrev pub peer_info_to_json : PeerInfo → Value
peer_info_to_json p = literal_obj (
    (lit "name", str p.name)
    ∷ (lit "public_key", str p.public_key)
    ∷ (lit "address", str p.address)
    ∷ [])

unfoldable pub peer_info_from_json : Value → Result DecodeError PeerInfo
peer_info_from_json v = do
  fs ← object v
  name ← string_field fs (lit "name")
  public_key ← string_field fs (lit "public_key")
  address ← string_field fs (lit "address")
  ok (record { name = name; public_key = public_key; address = address })

abbrev pub hub_fields : List Text
hub_fields =
    lit "subnet" ∷ lit "server_public_key" ∷ lit "server_endpoint" ∷ lit "server_address" ∷ []

abbrev pub peers_response_to_json : PeersResponse → Value
peers_response_to_json r =
    let peers = arr (items_of (map peer_info_to_json r.peers)) in
    elim r.hub [
      | none ↦ literal_obj ((lit "peers", peers) ∷ [])
      | some h ↦ literal_obj (
          (lit "peers", peers)
          ∷ (lit "subnet", str h.subnet)
          ∷ (lit "server_public_key", str h.server_public_key)
          ∷ (lit "server_endpoint", str h.server_endpoint)
          ∷ (lit "server_address", str h.server_address)
          ∷ [])
    ]

-- `peers[i]`
abbrev pub indexed : Text → ℕ → Text
indexed name i = name ++ (b'[' ∷ (decimal i ++ (b']' ∷ [])))

unfoldable pub peer_infos_from : ℕ → Items → Result DecodeError (List PeerInfo)
peer_infos_from i nil = ok []
peer_infos_from i (cons v vs) = do
  p ← map_err (peer_info_from_json v) (within (indexed (lit "peers") i))
  ps ← peer_infos_from (suc i) vs
  ok (p ∷ ps)

abbrev pub is_some : {A : Type 0} → Option A → Bool
is_some none = false
is_some (some a) = true

-- How many of the names the object has, and the first that it lacks.
abbrev pub present : Fields → List Text → ℕ
present fs [] = 0
present fs (n ∷ ns) = if is_some (get fs n) then suc (present fs ns) else present fs ns

abbrev pub first_absent : Fields → Option Text
first_absent fs = find (λ n. not (is_some (get fs n))) hub_fields

abbrev pub read_hub : Fields → Result DecodeError (Option HubInfo)
read_hub fs = do
  subnet ← string_field fs (lit "subnet")
  key ← string_field fs (lit "server_public_key")
  endpoint ← string_field fs (lit "server_endpoint")
  address ← string_field fs (lit "server_address")
  ok (
      some (record {
        subnet = subnet;
        server_public_key = key;
        server_endpoint = endpoint;
        server_address = address;
      }))

-- All four fields or none. `expect` on the first absent one cannot fail where some are absent.
unfoldable pub hub_from : Fields → Result DecodeError (Option HubInfo)
hub_from fs =
    if present fs hub_fields == 0
    then ok none
    else if present fs hub_fields == 4
    then read_hub fs
    else (elim (first_absent fs) [
      | some name ↦ err (decode_error missing name)
      | none ↦ err (decode_error missing [])
    ])

unfoldable pub peers_response_from_json : Value → Result DecodeError PeersResponse
peers_response_from_json v = do
  fs ← object v
  items ← array_field fs (lit "peers")
  peers ← peer_infos_from 0 items
  hub ← hub_from fs
  ok (record { peers = peers; hub = hub })

abbrev pub api_error_to_json : ApiError → Value
api_error_to_json e =
    literal_obj ((lit "code", str (Proto.as_str e.code)) ∷ (lit "message", str e.message) ∷ [])

unfoldable pub api_error_from_json : Value → Result DecodeError ApiError
api_error_from_json v = do
  fs ← object v
  text ← string_field fs (lit "code")
  code ← ok_or (from_wire text) (decode_error unknown_value (lit "code"))
  message ← string_field fs (lit "message")
  ok (record { code = code; message = message })
