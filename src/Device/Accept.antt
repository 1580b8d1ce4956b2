-- ===== src/Device/Accept.antt =====
-- A join over the wire (crates/anago/src/api.rs and join.rs): what the hub answers is accepted by
-- the device, and the file that the device keeps reads back.
use anago.Prelude.{
  ℕ, ◌≡◌, ◌≤◌, ◌<◌, refl, ap, subst, sym, ◌∙◌, some, true, false, [], ◌∷◌, ◌++◌, arith, ok, map_err,
  ◌>>=◌, leb, nat_eq, ◌==◌, tests,
}
use anago.Prelude.Int.{ℤ}
use anago.Text.{Text}
use anago.Ipv4.{IsOctets}
use anago.Ipv4.RoundTrip.{parse-display}
use anago.Subnet.{server_address, allocate}
use anago.Subnet.Alloc.{allocate-lowest_free}
use anago.Name
use anago.Name.Canonical.{IsUnicode, IsCanonical}
use anago.Token.{DeviceToken, TokenHash, parse_token}
use anago.Wg.Key.{parse_key_self}
use anago.State.{ServerState, Peer, peer_addresses, register, new_peer}
use anago.State.Join.{add_peer-Admits}
use anago.Json.{insert, insert_all}
use anago.Json.Write.{to_string}
use anago.Json.RoundTrip.{parse-to_string}
use anago.Proto.{JoinRequest, JoinResponse}
use anago.Proto.Codec.{join_response_to_json}
use anago.Proto.RoundTrip.{response_lem, response-parse}
use anago.Api.{Env, server_endpoint, join_response, decide_join}
use anago.Api.Join.{decide_join-Joins}
use anago.Device.{DeviceConfig, from_response}
use anago.Device.Endpoint.{checked_endpoint_self}
use anago.Device.Publish.{
  IsPublishable, parse-display_subnet, server_address-IsOctets, device-IsOctets, canonical-parse,
  check_request-parse, check_request-IsCanonical, register-IsPublishable,
}
use anago.Device.File.{
  config_to_json, config_to_json_string, parse_config, profile, validate, accepted, both,
  parsed_field, undo_credentials,
}

-- The file of a device whose port is one reads back.
pub parse_config-to_json_string :
    (c : DeviceConfig)
    → 0 < c.api_port
    → c.api_port ≤ 0xffff
    → parse_config (config_to_json_string c) ≡ ok c
unfolding parse_config insert insert_all
parse_config-to_json_string c p q =
    let fits : leb c.api_port 0xffff ≡ true = omega tests in
    let nz : (c.api_port == 0) ≡ false = ground arith in
    let text =
      (parse-to_string (config_to_json c)
        (
          (refl, (refl, (refl, (refl, (refl, (refl, (refl, (refl, (refl, (refl, tt)))))))))),
          (omega arith, (tt, (omega arith, (tt, (tt, (tt, (tt, (tt, (tt, (tt, tt)))))))))),
        )
        (omega arith)).1 in
    rw (text, map_err, ◌>>=◌, fits, nz) refl

-- What the hub did and what the device makes of the text of its answer: the device that the hub
-- appended has the name asked for and the address allocated, the interface of the device gets that
-- address, and an undo reads that name.
pub record Accepts (env : Env) (domain : Text) (port : ℕ) (private_key : Text) (s : ServerState)
    (request : JoinRequest) (token : DeviceToken) (after : ServerState) (response : JoinResponse)
    : Type 0 where
  pub peer : Peer
  pub appended : after.peers ≡ s.peers ++ peer ∷ []
  pub named : Name.parse env.unicode request.name ≡ ok peer.name
  pub allocated : allocate s.subnet (peer_addresses s.peers) ≡ some peer.address
  pub accepted_eq :
      accepted env.unicode (to_string (join_response_to_json response)) domain port private_key
      ≡ ok (
        from_response domain port response,
        record {
          address = peer.address;
          subnet = s.subnet;
          private_key = private_key;
          server_public_key = s.server.public_key;
          server_endpoint = server_endpoint s;
        },
      )
  pub file_eq :
      parse_config (config_to_json_string (from_response domain port response))
      ≡ ok (from_response domain port response)
  pub undo_eq :
      undo_credentials env.unicode (to_string (join_response_to_json response))
      ≡ some (peer.name, token)

module _ (env : Env) (laws : IsUnicode env.unicode) where
  accepted-join_response :
      (domain : Text) (port : ℕ) (private_key : Text) (s : ServerState) (p : Peer)
      (token : DeviceToken)
      → IsPublishable env s
      → IsCanonical env.unicode p.name
      → IsOctets p.address
      → parse_token token.text ≡ ok token
      → accepted env.unicode
          (to_string (join_response_to_json (join_response s p token)))
          domain
          port
          private_key
        ≡ ok (
          from_response domain port (join_response s p token),
          record {
            address = p.address;
            subnet = s.subnet;
            private_key = private_key;
            server_public_key = s.server.public_key;
            server_endpoint = server_endpoint s;
          },
        )
  unfolding accepted validate profile from_response
  accepted-join_response domain port private_key s p token w n o t =
      rw
        (
          response-parse (join_response s p token),
          map_err,
          ◌>>=◌,
          response_lem (join_response s p token),
          canonical-parse env laws p.name n,
          t,
          parse-display (server_address s.subnet) (server_address-IsOctets s.subnet w.octets),
          parse-display p.address o,
          parse-display_subnet s.subnet w.octets w.network,
          parse_key_self s.server.public_key w.key,
          checked_endpoint_self (server_endpoint s) w.endpoint,
        )
        refl

  undo_credentials-join_response :
      (s : ServerState) (p : Peer) (token : DeviceToken)
      → IsCanonical env.unicode p.name
      → parse_token token.text ≡ ok token
      → undo_credentials env.unicode (to_string (join_response_to_json (join_response s p token)))
        ≡ some (p.name, token)
  unfolding undo_credentials insert insert_all
  undo_credentials-join_response s p token n t =
      rw
        (
          response-parse (join_response s p token),
          undo_credentials,
          both,
          parsed_field,
          canonical-parse env laws p.name n,
          parsed_field,
          t,
        )
        refl

  -- The text that a hub in canonical form answers a join with is accepted by the device: it keeps
  -- what the hub answered, in a file that reads back, and its interface gets the hub's key, endpoint
  -- and network with the address that the hub allocated to the device that it appended. That device
  -- has the name asked for, and an undo reads this name and the token from the same text. The token
  -- that the hub draws is well-formed, and the port is one.
  pub decide_join-accepted :
      (domain : Text) (port : ℕ) (private_key : Text) (s : ServerState) (request : JoinRequest)
      (token : DeviceToken) (hash : TokenHash) (now : ℤ) {response : JoinResponse}
      → IsPublishable env s
      → (decide_join env s request token hash now).1 ≡ ok response
      → parse_token token.text ≡ ok token
      → 0 < port
      → port ≤ 0xffff
      → Accepts env domain port private_key s request token
          (decide_join env s request token hash now).0
          response
  unfolding register server_endpoint from_response
  decide_join-accepted domain port private_key s request token hash now {response} w h t lo hi =
      let j = decide_join-Joins env s request token hash now h in
      let (a, spelt) = add_peer-Admits s j.registration now (ap (λ t. t.1) j.joined) in
      let n = check_request-IsCanonical env laws request hash j.registration j.checked in
      let o =
        device-IsOctets s.subnet j.device.address w.octets
          (allocate-lowest_free s.subnet (peer_addresses s.peers) a.allocated).0 in
      let after = register s j.registration j.device.address now in
      let p = new_peer j.registration j.device.address now in
      let good = register-IsPublishable env laws s j.registration j.device.address now w n o in
      let answer = join_response after p token in
      let told : response ≡ answer = j.answer ∙ ap (λ q. join_response after q token) spelt in
      let left : (decide_join env s request token hash now).0 ≡ after = j.after in
      let accepts : Accepts env domain port private_key s request token after answer = record {
        peer = p;
        appended = refl;
        named = check_request-parse env laws request hash j.registration j.checked;
        allocated = a.allocated;
        accepted_eq = accepted-join_response domain port private_key after p token good n o t;
        file_eq = parse_config-to_json_string (from_response domain port answer) lo hi;
        undo_eq = undo_credentials-join_response after p token n t;
      } in
      subst (λ x. Accepts env domain port private_key s request token x response) (sym left)
        (subst (Accepts env domain port private_key s request token after) (sym told) accepts)
