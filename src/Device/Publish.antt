-- ===== src/Device/Publish.antt =====
-- What a hub says of itself and of its devices (crates/anago/src/api.rs) is accepted by the device's
-- parsers (crates/anago/src/sync.rs).
use anago.Prelude.{◌≡◌, refl, List, [], ◌∷◌, ◌++◌, map, some, arith, All, ok}
use anago.Prelude.Int.{ℤ}
use anago.Ipv4.{Ipv4Addr, IsOctets}
use anago.Ipv4.RoundTrip.{parse-display}
use anago.Subnet
use anago.Subnet.{Subnet, server_address, has_address}
use anago.Subnet.Alloc.{IsDeviceAddress}
use anago.Subnet.Canonical.{parse-display_iff}
use anago.Name
use anago.Name.{DeviceName, name_eq, name_beq_iff}
use anago.Name.Canonical.{IsUnicode, IsCanonical, IsCanonical-iff-parse}
use anago.Token.{TokenHash}
use anago.State.{ServerState, Peer, Registration, register, new_peer}
use anago.Wg.Key.{IsKey, parse_key_self}
use anago.Sync.{Reported, Member}
use anago.Proto.{JoinRequest}
use anago.Api.{Env, check_request, peer_info, server_endpoint, decide_peers}
use anago.Device.{checked_hub, reported_of, members_of}
use anago.Device.Endpoint.{IsEndpoint, checked_endpoint_self}

-- What the hub can name to others: a network, a key and an endpoint in canonical form, and devices
-- with canonical names and addresses of four octets.
pub record IsPublishable (env : Env) (s : ServerState) : Type 0 where
  pub octets : IsOctets s.subnet.network
  pub network : s.subnet.network.d ≡ 0
  pub key : IsKey s.server.public_key
  pub endpoint : IsEndpoint (server_endpoint s)
  pub devices : All (λ (p : Peer). IsCanonical env.unicode p.name × IsOctets p.address) s.peers

abbrev pub member : Peer → Member
member p = record { name = p.name; address = p.address }

abbrev pub reported_state : ServerState → Reported
reported_state s = record {
  subnet = s.subnet;
  server_public_key = s.server.public_key;
  server_endpoint = server_endpoint s;
  server_address = server_address s.subnet;
}

pub parse-display_subnet :
    (s : Subnet) → IsOctets s.network → s.network.d ≡ 0 → Subnet.parse (Subnet.display s) ≡ ok s
parse-display_subnet s o z = (parse-display_iff (Subnet.display s) s).1 (refl, o, z)

pub server_address-IsOctets : (s : Subnet) → IsOctets s.network → IsOctets (server_address s)
unfolding server_address
server_address-IsOctets s o = record {
  a_lt = o.a_lt;
  b_lt = o.b_lt;
  c_lt = o.c_lt;
  d_lt = omega arith;
}

pub device-IsOctets :
    (s : Subnet) (x : Ipv4Addr) → IsOctets s.network → IsDeviceAddress s x → IsOctets x
unfolding has_address
device-IsOctets s x o d = record {
  a_lt = ground (arith, o.a_lt, d.inside);
  b_lt = ground (arith, o.b_lt, d.inside);
  c_lt = ground (arith, o.c_lt, d.inside);
  d_lt = ground (arith, d.high);
}

module _ (env : Env) (laws : IsUnicode env.unicode) where
  pub canonical-parse :
      (n : DeviceName) → IsCanonical env.unicode n → Name.parse env.unicode n.text ≡ ok n
  canonical-parse n = (IsCanonical-iff-parse env.unicode laws n).1.0

  pub members_of-map :
      (ps : List Peer)
      → All (λ (p : Peer). IsCanonical env.unicode p.name × IsOctets p.address) ps
      → members_of env (map peer_info ps) ≡ ok (map member ps)
  unfolding members_of
  members_of-map [] h = refl
  members_of-map (p ∷ ps) h =
      ground
        (arith, canonical-parse p.name h.0.0, parse-display p.address h.0.1, members_of-map ps h.1)

  pub reported_of-decide_peers :
      (s : ServerState)
      → IsPublishable env s
      → reported_of (decide_peers s) ≡ ok (some (reported_state s))
  unfolding reported_of checked_hub decide_peers
  reported_of-decide_peers s w = ground (
    arith,
    parse-display_subnet s.subnet w.octets w.network,
    parse_key_self s.server.public_key w.key,
    checked_endpoint_self (server_endpoint s) w.endpoint,
    parse-display (server_address s.subnet) (server_address-IsOctets s.subnet w.octets),
  )

  pub devices-snoc :
      (ps : List Peer) (p : Peer)
      → All (λ (q : Peer). IsCanonical env.unicode q.name × IsOctets q.address) ps
      → IsCanonical env.unicode p.name × IsOctets p.address
      → All (λ (q : Peer). IsCanonical env.unicode q.name × IsOctets q.address) (ps ++ p ∷ [])
  devices-snoc [] p h k = (k, tt)
  devices-snoc (q ∷ ps) p h k = (h.0, devices-snoc ps p h.1 k)

  pub check_request-parse :
      (request : JoinRequest) (hash : TokenHash) (r : Registration)
      → check_request env request hash ≡ ok r
      → Name.parse env.unicode request.name ≡ ok r.name
  unfolding check_request
  check_request-parse request hash r h = ground arith

  -- The name of a request that was checked is canonical.
  pub check_request-IsCanonical :
      (request : JoinRequest) (hash : TokenHash) (r : Registration)
      → check_request env request hash ≡ ok r
      → IsCanonical env.unicode r.name
  check_request-IsCanonical request hash r h =
      (IsCanonical-iff-parse env.unicode laws r.name).0.1
        (request.name, check_request-parse request hash r h)

  pub register-IsPublishable :
      (s : ServerState) (r : Registration) (address : Ipv4Addr) (now : ℤ)
      → IsPublishable env s
      → IsCanonical env.unicode r.name
      → IsOctets address
      → IsPublishable env (register s r address now)
  unfolding register server_endpoint
  register-IsPublishable s r address now w n o = record {
    octets = w.octets;
    network = w.network;
    key = w.key;
    endpoint = w.endpoint;
    devices = devices-snoc s.peers (new_peer r address now) w.devices (n, o);
  }
