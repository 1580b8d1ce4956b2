-- ===== src/Device/Enrol.antt =====
-- From a join to the first `anago sync` (crates/anago/src/api.rs, join.rs and sync.rs): what the hub
-- hands out and what it repeats agree.
use anago.Prelude.{
  ℕ, ◌≡◌, refl, sym, ap, subst, ◌∙◌, false, List, [], ◌∷◌, ◌++◌, map, some, arith, ◌==◌, find,
  contains, ok,
}
use anago.Prelude.Int.{ℤ}
use anago.Text.{Text}
use anago.Ipv4.{Ipv4Addr, IsOctets}
use anago.Ipv4.RoundTrip.{parse-display}
use anago.Subnet.{server_address}
use anago.Subnet.Alloc.{allocate-lowest_free}
use anago.Name.{name_eq, name_beq_iff}
use anago.Name.Canonical.{IsUnicode, IsCanonical}
use anago.Token.{DeviceToken, TokenHash}
use anago.State.{ServerState, Peer, Registration, register, new_peer, peer_names, peer_addresses}
use anago.State.Join.{add_peer-Admits}
use anago.Sync.{Member, unchanged}
use anago.Sync.Decide.{decide-unchanged}
use anago.Proto.{JoinRequest, JoinResponse}
use anago.Api.{Env, server_endpoint, join_response, decide_join, decide_peers}
use anago.Api.Join.{decide_join-Joins}
use anago.Device.{from_response, local_of, roster_of, judge}
use anago.Device.Converge.{Judges-judge}
use anago.Device.Publish.{
  IsPublishable, member, reported_state, parse-display_subnet, server_address-IsOctets,
  device-IsOctets, canonical-parse, members_of-map, reported_of-decide_peers,
  check_request-IsCanonical, register-IsPublishable,
}

module _ (env : Env) (laws : IsUnicode env.unicode) where
  local_of-from_response :
      (domain : Text) (api_port : ℕ) (s : ServerState) (p : Peer) (token : DeviceToken)
      → IsPublishable env s
      → IsCanonical env.unicode p.name
      → IsOctets p.address
      → local_of env (from_response domain api_port (join_response s p token))
        ≡ ok (record {
          name = p.name;
          address = p.address;
          subnet = s.subnet;
          server_public_key = s.server.public_key;
          server_endpoint = server_endpoint s;
          server_address = server_address s.subnet;
        })
  unfolding local_of from_response
  local_of-from_response domain api_port s p token w n o = ground (
    arith,
    canonical-parse env laws p.name n,
    parse-display p.address o,
    parse-display_subnet s.subnet w.octets w.network,
    parse-display (server_address s.subnet) (server_address-IsOctets s.subnet w.octets),
  )

  -- A name that nobody had leads to the device that was appended under it.
  find-member :
      (ps : List Peer) (p : Peer)
      → contains (peer_names ps) p.name ≡ false
      → find (λ (m : Member). m.name == p.name) (map member (ps ++ p ∷ [])) ≡ some (member p)
  find-member [] p h = ground (arith, name_beq_iff p.name p.name)
  find-member (q ∷ ps) p h = ground (arith, find-member ps p)

  judge-register :
      (domain : Text) (api_port : ℕ) (s : ServerState) (r : Registration) (address : Ipv4Addr)
      (now : ℤ) (token : DeviceToken)
      → IsPublishable env s
      → IsCanonical env.unicode r.name
      → IsOctets address
      → contains (peer_names s.peers) r.name ≡ false
      → judge env
          (from_response domain api_port
            (join_response (register s r address now) (new_peer r address now) token))
          (decide_peers (register s r address now))
        ≡ ok unchanged
  unfolding roster_of decide_peers register
  judge-register domain api_port s r address now token w n o fresh =
      let after = register s r address now in
      let p = new_peer r address now in
      let good = register-IsPublishable env laws s r address now w n o in
      Judges-judge env (from_response domain api_port (join_response after p token))
        (decide_peers after)
        (record {
          local = record {
            name = r.name;
            address = address;
            subnet = s.subnet;
            server_public_key = s.server.public_key;
            server_endpoint = server_endpoint after;
            server_address = server_address s.subnet;
          };
          reported = some (reported_state after);
          roster = map member after.peers;
          local_eq = local_of-from_response domain api_port after p token good n o;
          reported_eq = reported_of-decide_peers env laws after good;
          roster_eq = members_of-map env laws after.peers good.devices;
          decided =
              decide-unchanged _ (reported_state after) (map member after.peers)
                (member p, find-member s.peers p fresh, refl) refl refl refl refl;
        })

  -- A hub and its devices agree from the start: whatever device joins a hub whose own values are in
  -- canonical form, the file that it keeps and the hub's next list of devices make its first
  -- `anago sync` end in "unchanged". The hub's values stay in canonical form, so this holds for the
  -- next device too.
  pub decide_join-judge :
      (domain : Text) (api_port : ℕ) (s : ServerState) (request : JoinRequest) (token : DeviceToken)
      (hash : TokenHash) (now : ℤ) {response : JoinResponse}
      → IsPublishable env s
      → (decide_join env s request token hash now).1 ≡ ok response
      → (judge env
            (from_response domain api_port response)
            (decide_peers (decide_join env s request token hash now).0)
          ≡ ok unchanged)
        × IsPublishable env (decide_join env s request token hash now).0
  decide_join-judge domain api_port s request token hash now {response} w h =
      let j = decide_join-Joins env s request token hash now h in
      let (a, spelt) = add_peer-Admits s j.registration now (ap (λ t. t.1) j.joined) in
      let n = check_request-IsCanonical env laws request hash j.registration j.checked in
      let o =
        device-IsOctets s.subnet j.device.address w.octets
          (allocate-lowest_free s.subnet (peer_addresses s.peers) a.allocated).0 in
      let after = register s j.registration j.device.address now in
      let told : response
          ≡ join_response after (new_peer j.registration j.device.address now) token =
        j.answer ∙ ap (λ q. join_response after q token) spelt in
      let agreed =
        judge-register domain api_port s j.registration j.device.address now token w n o a.fresh in
      (
        subst
            (λ t.
              judge env (from_response domain api_port response) (decide_peers t) ≡ ok unchanged)
            (sym j.after)
            (subst
              (λ x. judge env (from_response domain api_port x) (decide_peers after) ≡ ok unchanged)
              (sym told) agreed),
        subst (IsPublishable env) (sym j.after)
            (register-IsPublishable env laws s j.registration j.device.address now w n o),
      )
