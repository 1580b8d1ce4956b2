-- ===== src/Statefile/Tests.antt =====
-- A state of the hub, its file (crates/anago-core/src/state.rs), and a join.
use anago.Prelude.{◌≡◌, refl, [], ◌∷◌, none, some, ok, err, arith}
use anago.Prelude.Int.{pos}
use anago.Text.{lit, trim_start, trim_end, is_whitespace}
use anago.Ipv4.{IsOctets}
use anago.Subnet
use anago.Subnet.{Subnet, address_of, server_address}
use anago.Subnet.Canonical.{parse-display_iff}
use anago.Name
use anago.Name.{DeviceName}
use anago.Name.Ascii.{ascii}
use anago.Token.{TokenHash, parse_hash, check_hex}
use anago.Code
use anago.Code.{JoinCode, IssuedCode}
use anago.Tls.{Acme, http01, acme}
use anago.State.{ServerState, Registration, add_peer}
use anago.State.Reach.{Reach, here, next, join}
use anago.Json.{int, obj, end, field}
use anago.Statefile.{unsupported_version}
use anago.Statefile.Whole.{to_json_string, parse_state, from_json}
use anago.Statefile.RoundTrip.{IsStored}
use anago.Statefile.Written.{parse_state-to_json_string}
use anago.Statefile.Kept.{Reach-parse_state, AllFit}

abbrev network : Subnet
network = record { network = record { a = 10; b = 100; c = 0; d = 0 } }

abbrev acme_details : Acme
acme_details = record {
  directory = lit "https://acme.test/dir";
  contact = none;
  account_key_path = lit "k.pem";
  account_url = lit "https://acme.test/acct/1";
  challenge = http01;
  issued_at = pos 100;
  renew_after = pos 200;
}

abbrev first_code : JoinCode
first_code = record { text = lit "7QX4-M2KD" }

abbrev hub : ServerState
hub = record {
  domain = lit "vpn.test";
  subnet = network;
  listen_port = 51_820;
  api_port = 443;
  tls = record {
    cert_path = lit "c.pem";
    key_path = lit "t.pem";
    not_after = some (pos 300);
    source = acme acme_details;
  };
  cloudflare = none;
  server = record {
    private_key = lit "priv";
    public_key = lit "pub";
    address = record { a = 10; b = 100; c = 0; d = 1 };
  };
  peers = [];
  codes = record { code = first_code; issued_at = pos 0; expires = pos 900; used_at = none } ∷ [];
}

network-IsOctets : IsOctets network.network
network-IsOctets = record {
  a_lt = omega arith;
  b_lt = omega arith;
  c_lt = omega arith;
  d_lt = omega arith;
}

first_code-parse : Code.parse first_code.text ≡ ok first_code
unfolding Code.parse Code.parse_loop Code.is_separator Code.in_alphabet Code.format
first_code-parse = refl

hub-IsStored : IsStored ascii hub
unfolding server_address
hub-IsStored = record {
  subnet_eq = (parse-display_iff (Subnet.display network) network).1 (refl, network-IsOctets, refl);
  address_eq = refl;
  octets = record {
    a_lt = omega arith;
    b_lt = omega arith;
    c_lt = omega arith;
    d_lt = omega arith;
  };
  listen = omega arith;
  api = omega arith;
  expiry = omega arith;
  times = λ a e. ground arith;
  peers_stored = tt;
  codes_stored = (
    record { code_eq = first_code-parse; issued = omega arith; expires = omega arith; used = tt },
    tt,
  );
}

parse_state-to_json_string_example : parse_state ascii (to_json_string hub) ≡ ok hub
parse_state-to_json_string_example = parse_state-to_json_string ascii hub hub-IsStored

abbrev laptop : DeviceName
laptop = record { text = lit "laptop" }

abbrev hash : TokenHash
hash = record { hex = lit "00112233445566778899aabbccddeeff00112233445566778899aabbccddeeff" }

abbrev wanted : Registration
wanted = record { code = first_code; name = laptop; public_key = lit "key"; token_hash = hash }

laptop-parse : Name.parse ascii laptop.text ≡ ok laptop
unfolding Name.parse Name.check_chars Name.check_edge Name.on_reserved trim_start trim_end
    is_whitespace
laptop-parse = refl

hash-parse : parse_hash hash.hex ≡ ok hash
unfolding parse_hash check_hex
hash-parse = refl

abbrev joined : Reach hub (add_peer hub wanted (pos 10)).0
joined = next here (join hub wanted (pos 10))

joined-AllFit : AllFit ascii joined
joined-AllFit = (tt, (record { name_eq = laptop-parse; hash_eq = hash-parse }, omega arith))

Reach-parse_state_example :
    IsStored ascii (add_peer hub wanted (pos 10)).0
    × (parse_state ascii (to_json_string (add_peer hub wanted (pos 10)).0)
        ≡ ok (add_peer hub wanted (pos 10)).0)
Reach-parse_state_example = Reach-parse_state ascii joined joined-AllFit hub-IsStored

version_three :
    from_json ascii (obj (field (lit "version") (int (pos 3)) end))
    ≡ err (unsupported_version (pos 3))
unfolding from_json
version_three = refl
