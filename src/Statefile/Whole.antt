-- ===== src/Statefile/Whole.antt =====
-- crates/anago-core/src/state.rs: to_json_string, to_json, parse and from_json of `ServerState`.
use anago.Prelude.{
  ℕ, suc, Bool, true, false, List, [], ◌∷◌, map, Result, ok, err, ok_or, map_err, guard, ◌>>=◌,
  ◌>>◌, if◌then◌else◌, ◌==◌, nat_eq, list_eq,
}
use anago.Prelude.Int.{ℤ, pos, negsuc}
use anago.Text.{Text, lit}
use anago.Ipv4.{addr_eq}
use anago.Subnet
use anago.Subnet.{server_address}
use anago.Name.{Unicode}
use anago.Code.{IssuedCode}
use anago.State.{Peer, ServerState}
use anago.Json.{Value, int, str, arr, Items, nil, cons, get, literal_obj, items_of}
use anago.Json.Write.{to_string_pretty}
use anago.Json.Parse
use anago.Proto.Fields.{decode_error, missing, object, string_field, array_field}
use anago.Proto.Codec.{indexed}
use anago.Statefile.{
  StateError, not_json, shape, unsupported_version, bad_value, bad_subnet, not_first_address, lift,
  state_within, int_field, port_field,
}
use anago.Statefile.Records.{
  tls_to_json, tls_from_json, cloudflare_to_json, cloudflare_from_json, peer_to_json,
  peer_from_json, code_to_json, code_from_json, server_to_json, server_from_json,
}

-- `SCHEMA_VERSION`
abbrev pub schema_version : ℤ
schema_version = pos 2

abbrev pub to_json : ServerState → Value
to_json s = literal_obj (
    (lit "version", int schema_version)
    ∷ (lit "domain", str s.domain)
    ∷ (lit "subnet", str (Subnet.display s.subnet))
    ∷ (lit "listen_port", int (pos s.listen_port))
    ∷ (lit "api_port", int (pos s.api_port))
    ∷ (lit "tls", tls_to_json s.tls)
    ∷ (lit "cloudflare", cloudflare_to_json s.cloudflare)
    ∷ (lit "server", server_to_json s.server)
    ∷ (lit "peers", arr (items_of (map peer_to_json s.peers)))
    ∷ (lit "codes", arr (items_of (map code_to_json s.codes)))
    ∷ [])

abbrev pub to_json_string : ServerState → Text
to_json_string s = to_string_pretty (to_json s)

-- Whether the file is of version 1, of the two versions that are read.
abbrev pub is_legacy : ℤ → Result StateError Bool
is_legacy (negsuc n) = err (unsupported_version (negsuc n))
is_legacy (pos n) =
    if n == 2 then ok false else if n == 1 then ok true else err (unsupported_version (pos n))

module _ (read : Value → Result StateError Peer) where
  -- The loop over the devices, from an index on.
  unfoldable pub read_peers : ℕ → Items → Result StateError (List Peer)
  read_peers i nil = ok []
  read_peers i (cons v vs) = do
    p ← map_err (read v) (state_within (indexed (lit "peers") i))
    ps ← read_peers (suc i) vs
    ok (p ∷ ps)

-- The loop over the codes.
unfoldable pub read_codes : ℕ → Items → Result StateError (List IssuedCode)
read_codes i nil = ok []
read_codes i (cons v vs) = do
  c ← map_err (code_from_json v) (state_within (indexed (lit "codes") i))
  cs ← read_codes (suc i) vs
  ok (c ∷ cs)

unfoldable pub from_json : Unicode → Value → Result StateError ServerState
from_json u v = do
  fs ← lift (object v)
  version ← lift (int_field fs (lit "version"))
  legacy ← is_legacy version
  subnet_text ← lift (string_field fs (lit "subnet"))
  subnet ← map_err (Subnet.parse subnet_text) (λ e. bad_value (lit "subnet") (bad_subnet e))
  server_value ← ok_or (get fs (lit "server")) (shape (decode_error missing (lit "server")))
  server ← server_from_json server_value
  guard (server.address == server_address subnet)
      (bad_value (lit "server.address") not_first_address)
  peer_items ← lift (array_field fs (lit "peers"))
  peers ← read_peers (peer_from_json u) 0 peer_items
  code_items ← lift (array_field fs (lit "codes"))
  codes ← read_codes 0 code_items
  domain ← lift (string_field fs (lit "domain"))
  listen_port ← port_field fs (lit "listen_port")
  api_port ← port_field fs (lit "api_port")
  tls ← tls_from_json fs legacy
  cloudflare ← cloudflare_from_json fs legacy
  ok (record {
    domain = domain;
    subnet = subnet;
    listen_port = listen_port;
    api_port = api_port;
    tls = tls;
    cloudflare = cloudflare;
    server = server;
    peers = peers;
    codes = codes;
  })

unfoldable pub parse_state : Unicode → Text → Result StateError ServerState
parse_state u text = do v ← map_err (Parse.parse text) not_json; from_json u v
