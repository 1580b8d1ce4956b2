-- ===== src/Device/File.antt =====
-- crates/anago/src/join.rs: the device file, the checks of the hub's answer, and what an undo reads
-- of it.
use anago.Prelude.{
  ℕ, [], ◌∷◌, Option, none, some, nat_eq, ◌==◌, if◌then◌else◌, Result, ok, err, ok_or, map_err,
  ◌>>=◌, ◌>>◌,
}
use anago.Prelude.Int.{ℤ, pos, negsuc}
use anago.Text.{Text, lit}
use anago.Ipv4
use anago.Subnet
use anago.Name
use anago.Name.{Unicode, DeviceName}
use anago.Token.{DeviceToken, parse_token}
use anago.Wg.{parse_key}
use anago.Wgconf.{ClientProfile}
use anago.Json.{Value, int, str, Fields, get, get_field, as_i64, as_str, literal_obj}
use anago.Json.Write.{to_string_pretty}
use anago.Json.Parse
use anago.Json.Parse.{JsonError}
use anago.Proto.Fields.{DecodeError, object, string_field}
use anago.Proto.Codec.{join_response_from_json}
use anago.Statefile.{to_u16}
use anago.Device.{DeviceConfig, from_response, checked_endpoint}

-- The variants `DeviceFile` and `BadResponse` of `JoinError`, a constructor for each text that they
-- carry here; the others come of calls and files.
pub data JoinError : Type 0 where
  file_json : JsonError → JoinError
  file_shape : DecodeError → JoinError
  no_version missing_port bad_port : JoinError
  other_version : ℤ → JoinError
  answer_json : JsonError → JoinError
  answer_shape : DecodeError → JoinError
  bad_answer : Text → JoinError

abbrev pub config_to_json : DeviceConfig → Value
config_to_json c = literal_obj (
    (lit "version", int (pos 1))
    ∷ (lit "domain", str c.domain)
    ∷ (lit "api_port", int (pos c.api_port))
    ∷ (lit "name", str c.name)
    ∷ (lit "address", str c.address)
    ∷ (lit "subnet", str c.subnet)
    ∷ (lit "token", str c.token)
    ∷ (lit "server_public_key", str c.server_public_key)
    ∷ (lit "server_endpoint", str c.server_endpoint)
    ∷ (lit "server_address", str c.server_address)
    ∷ [])

abbrev pub config_to_json_string : DeviceConfig → Text
config_to_json_string c = to_string_pretty (config_to_json c)

-- `SCHEMA_VERSION` is 1.
abbrev pub check_version : ℤ → Result JoinError (Unit {0})
check_version (negsuc n) = err (other_version (negsuc n))
check_version (pos n) = if n == 1 then ok tt else err (other_version (pos n))

abbrev pub nonzero : ℕ → Option ℕ
nonzero n = if n == 0 then none else some n

-- `as_i64`, `u16::try_from` and the filter, one after the other.
abbrev pub as_port : Value → Option ℕ
as_port v = elim (as_i64 v) [
  | none ↦ none
  | some z ↦ elim (to_u16 z) [ none ↦ none | some n ↦ nonzero n ]
]

abbrev pub version_of : Fields → Option ℤ
version_of fs = elim (get fs (lit "version")) [ none ↦ none | some v ↦ as_i64 v ]

abbrev pub config_field : Fields → Text → Result JoinError Text
config_field fs name = map_err (string_field fs name) file_shape

unfoldable pub parse_config : Text → Result JoinError DeviceConfig
parse_config text = do
  v ← map_err (Parse.parse text) file_json
  fs ← map_err (object v) file_shape
  version ← ok_or (version_of fs) no_version
  check_version version
  port_value ← ok_or (get fs (lit "api_port")) missing_port
  api_port ← ok_or (as_port port_value) bad_port
  domain ← config_field fs (lit "domain")
  name ← config_field fs (lit "name")
  address ← config_field fs (lit "address")
  subnet ← config_field fs (lit "subnet")
  token ← config_field fs (lit "token")
  key ← config_field fs (lit "server_public_key")
  endpoint ← config_field fs (lit "server_endpoint")
  hub ← config_field fs (lit "server_address")
  ok (record {
    domain = domain;
    api_port = api_port;
    name = name;
    address = address;
    subnet = subnet;
    token = token;
    server_public_key = key;
    server_endpoint = endpoint;
    server_address = hub;
  })

-- `DeviceConfig::profile`
unfoldable pub profile : DeviceConfig → Text → Result JoinError ClientProfile
profile c private_key = do
  address ← ok_or (Ipv4.parse c.address) (bad_answer (lit "address"))
  subnet ← map_err (Subnet.parse c.subnet) (λ e. bad_answer (lit "subnet"))
  key ← map_err (parse_key c.server_public_key) (λ e. bad_answer (lit "server public key"))
  endpoint ← map_err (checked_endpoint c.server_endpoint) (λ e. bad_answer (lit "server endpoint"))
  ok (record {
    address = address;
    subnet = subnet;
    private_key = private_key;
    server_public_key = key;
    server_endpoint = endpoint;
  })

-- `DeviceConfig::validate`
unfoldable pub validate : Unicode → DeviceConfig → Result JoinError (Unit {0})
validate u c = do
  name ← map_err (Name.parse u c.name) (λ e. bad_answer (lit "name"))
  token ← map_err (parse_token c.token) (λ e. bad_answer (lit "token"))
  address ← ok_or (Ipv4.parse c.server_address) (bad_answer (lit "server address"))
  ok tt

unfoldable pub accepted :
    Unicode → Text → Text → ℕ → Text → Result JoinError (DeviceConfig × ClientProfile)
accepted u body domain api_port private_key = do
  v ← map_err (Parse.parse body) answer_json
  answer ← map_err (join_response_from_json v) answer_shape
  validate u (from_response domain api_port answer)
  made ← profile (from_response domain api_port answer) private_key
  ok (from_response domain api_port answer, made)

-- A field that is a text and that `read` accepts.
abbrev pub parsed_field : {E A : Type 0} → (Text → Result E A) → Value → Text → Option A
parsed_field read v name = elim (get_field v name) [
  | none ↦ none
  | some found ↦ elim (as_str found) [
    | none ↦ none
    | some text ↦ elim (read text) [ ok a ↦ some a | err e ↦ none ]
  ]
]

abbrev pub both : {A B : Type 0} → Option A → Option B → Option (A × B)
both none y = none
both (some a) none = none
both (some a) (some b) = some (a, b)

unfoldable pub undo_credentials : Unicode → Text → Option (DeviceName × DeviceToken)
undo_credentials u body = elim (Parse.parse body) [
  | err e ↦ none
  | ok v ↦
      both (parsed_field (Name.parse u) v (lit "name")) (parsed_field parse_token v (lit "token"))
]
