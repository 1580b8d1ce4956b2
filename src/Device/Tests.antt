-- ===== src/Device/Tests.antt =====
-- Runs of crates/anago/src/join.rs and crates/anago/src/sync.rs.
use anago.Prelude.{◌≡◌, refl, ◌↔◌, true, false, [], ◌∷◌, none, some, arith, ok, err}
use anago.Prelude.Int.{pos}
use anago.Prelude.I64.{saturating_add}
use anago.Text.{Text, lit, trim_start, trim_end, is_whitespace, rsplit_once, split_once}
use anago.Text.Decimal.{decimal}
use anago.Ipv4
use anago.Subnet
use anago.Subnet.{
  Subnet, address_of, allocate, next_free_octet, host_octets, host_octet, find_unused, has_address,
  server_address,
}
use anago.Name
use anago.Name.{is_taken}
use anago.Name.Ascii.{ascii, ascii-IsUnicode}
use anago.Token.{DeviceToken, TokenHash, parse_token, check_hex}
use anago.Tls.{manual}
use anago.Code
use anago.Code.{issued_status, status, expires_at}
use anago.State.{ServerState, add_peer, admit, find_code, mark_used, register}
use anago.State.Reach.{build_state}
use anago.Wg.{parse_key, is_key}
use anago.Sync.{Changes, Reported, unchanged, rewrite, decide, check_roster, compare}
use anago.Proto.{JoinRequest, JoinResponse, PeersResponse}
use anago.Api.{Env, check_request, server_endpoint, decide_join, decide_peers}
use anago.Device.{
  DeviceConfig, bad_host, checked_endpoint, parse_u16, digits_u16, is_empty, from_response,
  local_of, checked_hub, reported_of, members_of, roster_of, updated, judge,
}
use anago.Device.Endpoint.{IsEndpoint, checked_endpoint-IsEndpoint_iff}
use anago.Device.Converge.{judge-updated}
use anago.Device.Publish.{IsPublishable}
use anago.Device.Accept.{Accepts, decide_join-accepted}
use anago.Device.Enrol.{decide_join-judge}

checked_endpoint_plain : checked_endpoint (lit "vpn.test:051820") ≡ ok (lit "vpn.test:51820")
unfolding checked_endpoint rsplit_once parse_u16 digits_u16 is_empty decimal
checked_endpoint_plain = refl

checked_endpoint_line : checked_endpoint (lit "vpn.test\nPostUp = id:1") ≡ err bad_host
unfolding checked_endpoint rsplit_once parse_u16 digits_u16 is_empty
checked_endpoint_line = refl

checked_endpoint-IsEndpoint_iff_example :
    (IsEndpoint (lit "vpn.test:51820")
      ↔ ((text : Text) × (checked_endpoint text ≡ ok (lit "vpn.test:51820"))))
    × (IsEndpoint (lit "vpn.test:51820")
        ↔ (checked_endpoint (lit "vpn.test:51820") ≡ ok (lit "vpn.test:51820")))
checked_endpoint-IsEndpoint_iff_example = checked_endpoint-IsEndpoint_iff (lit "vpn.test:51820")

abbrev env : Env
env = record {
  sha256 = λ bytes. bytes;
  unicode = ascii;
  debug_char = λ c. c ∷ [];
  debug_str = λ s. s;
}

abbrev key : Text
key = lit "AAAAAAAAAAAAAAAAAAAAAAAAAAAAAAAAAAAAAAAAAAA="

abbrev net : Subnet
net = record { network = record { a = 10; b = 100; c = 0; d = 0 } }

abbrev hub : ServerState
hub =
    build_state (lit "vpn.test") net 51_820 443
      (record { cert_path = lit "c"; key_path = lit "k"; not_after = none; source = manual }) none
      (lit "priv") key (record { text = lit "7QX4-M2KD" }) (pos 0)

hub-IsPublishable : IsPublishable env hub
unfolding build_state server_endpoint decimal
hub-IsPublishable = record {
  octets = record {
    a_lt = omega arith;
    b_lt = omega arith;
    c_lt = omega arith;
    d_lt = omega arith;
  };
  network = refl;
  key = record {
    body = lit "AAAAAAAAAAAAAAAAAAAAAAAAAAAAAAAAAAAAAAAAAAA";
    spelt = refl;
    long = refl;
    base64 = refl;
  };
  endpoint = record {
    host = lit "vpn.test";
    port = 51_820;
    spelt = refl;
    host_ne = λ e. ground arith;
    host_chars = refl;
    port_pos = omega arith;
    port_le = omega arith;
  };
  devices = tt;
}

abbrev asked : JoinRequest
asked = record { code = lit "7qx4m2kd"; name = lit "Laptop"; public_key = key }

abbrev token : DeviceToken
token = record { text = lit "0a0a0a0a0a0a0a0a0a0a0a0a0a0a0a0a0a0a0a0a0a0a0a0a0a0a0a0a0a0a0a0a" }

abbrev hash : TokenHash
hash = record { hex = lit "0b" }

abbrev answer : JoinResponse
answer = record {
  name = lit "laptop";
  address = lit "10.100.0.2";
  subnet = lit "10.100.0.0/24";
  token = lit "0a0a0a0a0a0a0a0a0a0a0a0a0a0a0a0a0a0a0a0a0a0a0a0a0a0a0a0a0a0a0a0a";
  server_public_key = key;
  server_endpoint = lit "vpn.test:51820";
  server_address = lit "10.100.0.1";
}

joined-answer : (decide_join env hub asked token hash (pos 10)).1 ≡ ok answer
unfolding decide_join check_request Code.parse Code.parse_loop Code.is_separator Code.in_alphabet
    Code.format Name.parse trim_end trim_start Name.check_chars Name.check_edge Name.on_reserved
    parse_key is_key add_peer admit mark_used register find_code build_state Code.issue
    server_endpoint expires_at issued_status status is_taken saturating_add allocate Ipv4.display
    Subnet.display next_free_octet find_unused has_address host_octet host_octets server_address
    decimal is_whitespace
joined-answer = refl

decide_join-judge_example :
    (judge env
        (from_response (lit "vpn.test") 443 answer)
        (decide_peers (decide_join env hub asked token hash (pos 10)).0)
      ≡ ok unchanged)
    × IsPublishable env (decide_join env hub asked token hash (pos 10)).0
decide_join-judge_example =
    decide_join-judge env ascii-IsUnicode (lit "vpn.test") 443 hub asked token hash (pos 10)
      hub-IsPublishable joined-answer

token-parse : parse_token token.text ≡ ok token
unfolding parse_token check_hex trim_end trim_start is_whitespace
token-parse = refl

decide_join-accepted_example :
    Accepts env
      (lit "vpn.test")
      443
      (lit "priv")
      hub
      asked
      token
      (decide_join env hub asked token hash (pos 10)).0
      answer
decide_join-accepted_example =
    decide_join-accepted env ascii-IsUnicode (lit "vpn.test") 443 (lit "priv") hub asked token hash
      (pos 10) hub-IsPublishable joined-answer token-parse (omega arith) (omega arith)

-- The hub has another key than the file of the device says.
abbrev old : DeviceConfig
old = from_response (lit "vpn.test") 443 (record answer { server_public_key = lit "old" })

abbrev listed : PeersResponse
listed = record {
  peers = record { name = lit "laptop"; public_key = lit "K"; address = lit "10.100.0.2" } ∷ [];
  hub = some (record {
    subnet = lit "10.100.0.0/24";
    server_public_key = key;
    server_endpoint = lit "vpn.test:51820";
    server_address = lit "10.100.0.1";
  });
}

abbrev told : Reported
told = record {
  subnet = net;
  server_public_key = key;
  server_endpoint = lit "vpn.test:51820";
  server_address = address_of net 1;
}

abbrev key_moved : Changes
key_moved = record { server_public_key = true; server_endpoint = false; server_address = false }

reported-told : reported_of listed ≡ ok (some told)
unfolding reported_of checked_hub Subnet.parse split_once Ipv4.parse Ipv4.read_octet parse_key
    is_key trim_start trim_end is_whitespace checked_endpoint rsplit_once parse_u16 digits_u16
    is_empty decimal
reported-told = refl

judge-key_moved : judge env old listed ≡ ok (rewrite key_moved)
unfolding judge local_of from_response roster_of members_of decide check_roster compare reported_of
    checked_hub Subnet.parse split_once Ipv4.parse Ipv4.read_octet parse_key is_key trim_start
    trim_end is_whitespace checked_endpoint rsplit_once parse_u16 digits_u16 is_empty decimal
    Name.parse Name.check_chars Name.check_edge Name.on_reserved
judge-key_moved = refl

judge-updated_example : judge env (updated old (some told)) listed ≡ ok unchanged
judge-updated_example = judge-updated env old listed told reported-told judge-key_moved
