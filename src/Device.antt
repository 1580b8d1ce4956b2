-- ===== src/Device.antt =====
-- The device's side: crates/anago/src/join.rs (what a device keeps, checked_endpoint) and
-- crates/anago/src/sync.rs (what a run of `anago sync` reads, decides and writes).
pub mod Endpoint
pub mod Converge
pub mod Publish
pub mod Enrol
pub mod File
pub mod Accept
mod Tests
use anago.Prelude.{
  ℕ, ◌≡◌, Bool, true, false, not, ◌&&◌, ◌||◌, List, [], ◌∷◌, ◌++◌, Option, none, some, ◌==◌,
  list_eq, nat_eq, if◌then◌else◌, ltb, all, Result, ok, err, map_err, ok_or, ◌>>=◌, ◌>>◌, guard,
  map,
}
use anago.Text.{Text, lit, is_digit, is_ascii_alphanumeric, rsplit_once, strip_prefix}
use anago.Text.Decimal.{decimal, value}
use anago.Ipv4
use anago.Subnet
use anago.Name
use anago.Wg.{parse_key}
use anago.Sync.{
  Local, Reported, Member, Outcome, unchanged, unverifiable, rewrite, detached, decide,
}
use anago.Proto.{JoinResponse, PeerInfo, HubInfo, PeersResponse}
use anago.Api.{Env}

pub record DeviceConfig : Type 0 where
  pub domain : Text
  pub api_port : ℕ
  pub name : Text
  pub address : Text
  pub subnet : Text
  pub token : Text
  pub server_public_key : Text
  pub server_endpoint : Text
  pub server_address : Text

-- `DeviceConfig::from_response`.
unfoldable pub from_response : Text → ℕ → JoinResponse → DeviceConfig
from_response domain api_port response = record {
  domain = domain;
  api_port = api_port;
  name = response.name;
  address = response.address;
  subnet = response.subnet;
  token = response.token;
  server_public_key = response.server_public_key;
  server_endpoint = response.server_endpoint;
  server_address = response.server_address;
}

-- Why an endpoint is refused, a constructor for each message of `checked_endpoint`.
pub data EndpointError : Type 0 where
  no_colon no_host bad_host bad_port zero_port : EndpointError

pub is_empty : Text → Bool
is_empty [] = true
is_empty (c ∷ cs) = false

abbrev pub is_host_char : ℕ → Bool
is_host_char c = is_ascii_alphanumeric c || (c == b'-') || (c == b'.')

-- `str::parse::<u16>`: an optional plus, at least one digit, and a value that fits.
pub digits_u16 : Text → Option ℕ
unfolding is_empty
digits_u16 s =
    if is_empty s || not (all is_digit s) || ltb 65_535 (value s) then none else some (value s)

unfoldable pub parse_u16 : Text → Option ℕ
unfolding digits_u16
parse_u16 s = elim (strip_prefix (lit "+") s) [ some rest ↦ digits_u16 rest | none ↦ digits_u16 s ]

unfoldable pub checked_endpoint : Text → Result EndpointError Text
unfolding is_empty
checked_endpoint text = do
  (host, port) ← ok_or (rsplit_once b':' text) no_colon
  guard (not (is_empty host)) no_host
  guard (all is_host_char host) bad_host
  n ← ok_or (parse_u16 port) bad_port
  guard (not (n == 0)) zero_port
  ok (host ++ b':' ∷ decimal n)

-- Which file or answer has a bad field, and which field; the detail of the message is left out.
pub data SyncError : Type 0 where
  device_file bad_response : Text → SyncError

-- `local_of`.
unfoldable pub local_of : Env → DeviceConfig → Result SyncError Local
local_of env config = do
  name ← map_err (Name.parse env.unicode config.name) (λ e. device_file (lit "name"))
  address ← ok_or (Ipv4.parse config.address) (device_file (lit "address"))
  subnet ← map_err (Subnet.parse config.subnet) (λ e. device_file (lit "subnet"))
  server_address ← ok_or (Ipv4.parse config.server_address) (device_file (lit "server_address"))
  ok (record {
    name = name;
    address = address;
    subnet = subnet;
    server_public_key = config.server_public_key;
    server_endpoint = config.server_endpoint;
    server_address = server_address;
  })

-- `reported_of`, of the part that the hub says about itself.
unfoldable pub checked_hub : HubInfo → Result SyncError Reported
checked_hub hub = do
  subnet ← map_err (Subnet.parse hub.subnet) (λ e. bad_response (lit "subnet"))
  key ← map_err (parse_key hub.server_public_key) (λ e. bad_response (lit "server_public_key"))
  endpoint ←
      map_err (checked_endpoint hub.server_endpoint) (λ e. bad_response (lit "server_endpoint"))
  address ← ok_or (Ipv4.parse hub.server_address) (bad_response (lit "server_address"))
  ok (record {
    subnet = subnet;
    server_public_key = key;
    server_endpoint = endpoint;
    server_address = address;
  })

unfoldable pub reported_of : PeersResponse → Result SyncError (Option Reported)
reported_of response = elim response.hub [
  | none ↦ ok none
  | some hub ↦ do reported ← checked_hub hub; ok (some reported)
]

-- `roster_of`.
unfoldable pub members_of : Env → List PeerInfo → Result SyncError (List Member)
members_of env [] = ok []
members_of env (p ∷ ps) = do
  name ← map_err (Name.parse env.unicode p.name) (λ e. bad_response (lit "peer name"))
  address ← ok_or (Ipv4.parse p.address) (bad_response (lit "peer address"))
  rest ← members_of env ps
  ok (record { name = name; address = address } ∷ rest)

unfoldable pub roster_of : Env → PeersResponse → Result SyncError (List Member)
roster_of env response = members_of env response.peers

-- `updated`: what the device file holds after a rewrite.
unfoldable pub updated : DeviceConfig → Option Reported → DeviceConfig
updated config none = config
updated config (some reported) = record config {
  server_public_key = reported.server_public_key;
  server_endpoint = reported.server_endpoint;
  server_address = Ipv4.display reported.server_address;
}

-- What `attempt` decides, from its device file and the hub's answer.
unfoldable pub judge : Env → DeviceConfig → PeersResponse → Result SyncError Outcome
judge env config response = do
  local ← local_of env config
  reported ← reported_of response
  roster ← roster_of env response
  ok (decide local reported roster)

pub data Ending : Type 0 where
  fine passed stop : Ending

unfoldable pub ending_of : Outcome → Ending
ending_of unchanged = fine
ending_of unverifiable = fine
ending_of (rewrite changes) = fine
ending_of (detached detachment) = stop

unfoldable pub exit_code : Ending → ℕ
exit_code fine = 0
exit_code passed = 0
exit_code stop = 1
