-- ===== src/Api/Tests.antt =====
-- Runs of crates/anago/src/api.rs.
use anago.Prelude.{◌≡◌, refl, true, false, [], ◌∷◌, map, none, some, Result, ok, err}
use anago.Prelude.Int.{pos}
use anago.Prelude.I64.{saturating_add}
use anago.Text.{lit, is_ascii_alphanumeric, to_ascii_lowercase, trim_start, trim_end, is_whitespace}
use anago.Ipv4
use anago.Text.Decimal.{decimal}
use anago.Subnet
use anago.Subnet.{
  Subnet, address_of, allocate, next_free_octet, host_octets, host_octet, find_unused, has_address,
  server_address,
}
use anago.Name
use anago.Name.{Unicode, DeviceName, is_taken}
use anago.Token.{DeviceToken, to_hex, hex_digit}
use anago.Tls.{manual}
use anago.Code
use anago.Code.{JoinCode, issued_status, status, expires_at}
use anago.State.{
  ServerState, add_peer, admit, find_code, mark_used, register, remove_peer, peer, Peer,
}
use anago.State.Invariant.{IsSound}
use anago.State.Reach.{build_state, here, Reach-build_state-IsSound}
use anago.Wg.{parse_key, is_key}
use anago.Proto.{error_code, JoinRequest, JoinResponse, ApiError}
use anago.Api.{
  Env, hash_token, authenticate, check_request, decide_join, unauthorized_error, invalid_code_error,
  server_endpoint, rejection_error,
}
use anago.Api.Auth.{hash_eq, authenticate-remove_peer}
use anago.Api.Join.{decide_join-authenticate, Refuses, decide_join-Refuses}
use anago.Store.{Calls, whole, write_private, replace_with, write_temp, or_remove}
use anago.Api.Handlers.{Io, Files, internal_error, peers, remove_device, join_device}
use anago.Api.Requests.{Leads, refused-unchanged, requests-Reach}

-- An environment whose digest is the text itself.
abbrev env : Env
env = record {
  sha256 = λ bytes. bytes;
  unicode = record {
    is_alphanumeric = is_ascii_alphanumeric;
    to_lowercase = map to_ascii_lowercase;
  };
  debug_char = λ c. c ∷ [];
  debug_str = λ s. s;
}

abbrev net : Subnet
net = record { network = record { a = 10; b = 100; c = 0; d = 0 } }

abbrev fresh_hub : ServerState
fresh_hub =
    build_state (lit "vpn.test") net 51_820 443
      (record { cert_path = lit "c"; key_path = lit "k"; not_after = none; source = manual }) none
      (lit "priv") (lit "pub") (record { text = lit "7QX4-M2KD" }) (pos 0)

abbrev token : DeviceToken
token = record { text = lit "0a" }

abbrev asked : JoinRequest
asked = record {
  code = lit "7qx4m2kd";
  name = lit "Laptop";
  public_key = lit "AAAAAAAAAAAAAAAAAAAAAAAAAAAAAAAAAAAAAAAAAAA=";
}

abbrev joined : ServerState × Result ApiError JoinResponse
joined = decide_join env fresh_hub asked token (hash_token env token) (pos 10)

abbrev answer : JoinResponse
answer = record {
  name = lit "laptop";
  address = lit "10.100.0.2";
  subnet = lit "10.100.0.0/24";
  token = lit "0a";
  server_public_key = lit "pub";
  server_endpoint = lit "vpn.test:51820";
  server_address = lit "10.100.0.1";
}

joined-answer : joined.1 ≡ ok answer
unfolding decide_join check_request Code.parse Code.parse_loop Code.is_separator Code.in_alphabet
    Code.format Name.parse trim_end trim_start Name.check_chars Name.check_edge Name.on_reserved
    parse_key is_key add_peer admit mark_used register find_code build_state Code.issue
    server_endpoint expires_at issued_status status is_taken saturating_add allocate Ipv4.display
    Subnet.display next_free_octet find_unused has_address host_octet host_octets server_address
    decimal is_whitespace
joined-answer = refl

decide_join-authenticate_example :
    authenticate env joined.0 token ≡ ok (record { text = lit "laptop" })
decide_join-authenticate_example =
    decide_join-authenticate env fresh_hub asked token (pos 10) joined-answer

-- A code that was never issued.
abbrev guessed : JoinRequest
guessed = record asked { code = lit "2222-2222" }

refused-guessed :
    (decide_join env fresh_hub guessed token (hash_token env token) (pos 10)).1
    ≡ err invalid_code_error
unfolding decide_join check_request Code.parse Code.parse_loop Code.is_separator Code.in_alphabet
    Code.format Name.parse trim_end trim_start Name.check_chars Name.check_edge Name.on_reserved
    parse_key is_key add_peer admit mark_used register find_code rejection_error error_code
    build_state Code.issue server_endpoint expires_at issued_status status is_taken saturating_add
    allocate Ipv4.display Subnet.display next_free_octet find_unused has_address host_octet
    host_octets server_address decimal is_whitespace
refused-guessed = refl

decide_join-Refuses_example :
    ((decide_join env fresh_hub guessed token (hash_token env token) (pos 10)).0 ≡ fresh_hub)
    × Refuses env fresh_hub guessed (hash_token env token) (pos 10) invalid_code_error
decide_join-Refuses_example =
    decide_join-Refuses env fresh_hub guessed token (hash_token env token) (pos 10) refused-guessed

-- The hub with that device alone.
abbrev laptop : DeviceName
laptop = record { text = lit "laptop" }

abbrev device : Peer
device = record {
  name = laptop;
  public_key = lit "K";
  address = address_of net 2;
  token_hash = hash_token env token;
  created_at = pos 10;
  last_seen = none;
}

abbrev hub : ServerState
hub = record fresh_hub { peers = device ∷ [] }

removed-device : (remove_peer hub laptop).1 ≡ some device
unfolding remove_peer peer
removed-device = refl

authenticate-remove_peer_example :
    authenticate env (remove_peer hub laptop).0 token ≡ err unauthorized_error
authenticate-remove_peer_example =
    authenticate-remove_peer env hub laptop token (refl, tt) removed-device refl

-- A disk that is full: the sibling is created, and not written.
abbrev full_disk : Calls
full_disk = record {
  clear = true;
  create = true;
  mode = true;
  write = false;
  sync = true;
  rename = true;
  remove = true;
}

abbrev files : Files
files = record { file = whole fresh_hub; temp = none }

abbrev io : Io
io = record { held = true; calls = full_disk; random = some (0 ∷ []); now = pos 20 }

commit_fails :
    join_device env io files (ok asked)
    ≡ (files, err (internal_error (lit "the server could not save the new device")))
unfolding decide_join check_request Code.parse Code.parse_loop Code.is_separator Code.in_alphabet
    Code.format Name.parse trim_end trim_start Name.check_chars Name.check_edge Name.on_reserved
    parse_key is_key add_peer admit mark_used register find_code join_device write_private
    replace_with write_temp or_remove to_hex hex_digit build_state Code.issue server_endpoint
    expires_at issued_status status is_taken saturating_add allocate Ipv4.display Subnet.display
    next_free_octet find_unused has_address host_octet host_octets server_address decimal
    is_whitespace
commit_fails = refl

abbrev full : ApiError
full = internal_error (lit "the server could not save the new device")

refused-unchanged_example :
    ((peers env io files none).1 ≡ err full → (peers env io files none).0.file ≡ files.file)
    × ((remove_device env io files none (lit "laptop")).1 ≡ err full
        → (remove_device env io files none (lit "laptop")).0.file ≡ files.file)
    × ((join_device env io files (ok asked)).1 ≡ err full
        → (join_device env io files (ok asked)).0.file ≡ files.file)
refused-unchanged_example = refused-unchanged env io files none (lit "laptop") (ok asked)

fresh_hub-IsSound : IsSound fresh_hub
fresh_hub-IsSound =
    Reach-build_state-IsSound (lit "vpn.test") net 51_820 443
      (record { cert_path = lit "c"; key_path = lit "k"; not_after = none; source = manual }) none
      (lit "priv") (lit "pub") (record { text = lit "7QX4-M2KD" }) (pos 0) here

requests-Reach_example :
    Leads fresh_hub (peers env io files none).0
    × Leads fresh_hub (remove_device env io files none (lit "laptop")).0
    × Leads fresh_hub (join_device env io files (ok asked)).0
requests-Reach_example =
    requests-Reach env io files fresh_hub none (lit "laptop") (ok asked) refl fresh_hub-IsSound
