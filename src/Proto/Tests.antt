-- ===== src/Proto/Tests.antt =====
-- Runs of the bodies and the error codes of crates/anago-core/src/proto.rs.
use anago.Prelude.{◌≡◌, refl, none, some, [], ◌∷◌, err}
use anago.Text.{lit}
use anago.Json.{str, arr, nil, obj, end, field}
use anago.Proto.{from_wire, name_taken, JoinRequest, JoinResponse, PeersResponse, ApiError}
use anago.Proto.Fields.{decode_error, missing}
use anago.Proto.Codec.{
  join_request_to_json, join_request_from_json, join_response_to_json, join_response_from_json,
  peers_response_to_json, peers_response_from_json, api_error_to_json, api_error_from_json,
  hub_from, peer_infos_from,
}
use anago.Proto.RoundTrip.{ReadsBack, bodies-ReadsBack}

from_wire_unknown : from_wire (lit "teapot") ≡ none
unfolding from_wire
from_wire_unknown = refl

abbrev request : JoinRequest
request = record { code = lit "7QX4-M2KD"; name = lit "laptop"; public_key = lit "k=" }

abbrev response : JoinResponse
response = record {
  name = lit "laptop";
  address = lit "10.1.0.2";
  subnet = lit "10.1.0.0/24";
  token = lit "00";
  server_public_key = lit "p=";
  server_endpoint = lit "vpn.test:51820";
  server_address = lit "10.1.0.1";
}

abbrev listed : PeersResponse
listed = record {
  peers = record { name = lit "laptop"; public_key = lit "k="; address = lit "10.1.0.2" } ∷ [];
  hub = some (record {
    subnet = lit "10.1.0.0/24";
    server_public_key = lit "p=";
    server_endpoint = lit "vpn.test:51820";
    server_address = lit "10.1.0.1";
  });
}

abbrev refusal : ApiError
refusal = record { code = name_taken; message = lit "taken" }

bodies-ReadsBack_example :
    ReadsBack join_request_to_json join_request_from_json request
    × ReadsBack join_response_to_json join_response_from_json response
    × ReadsBack peers_response_to_json peers_response_from_json listed
    × ReadsBack api_error_to_json api_error_from_json refusal
bodies-ReadsBack_example = bodies-ReadsBack request response listed refusal

-- Half of the hub's values is refused.
half_hub :
    peers_response_from_json
      (obj (field (lit "peers") (arr nil) (field (lit "subnet") (str (lit "10.1.0.0/24")) end)))
    ≡ err (decode_error missing (lit "server_public_key"))
unfolding peers_response_from_json peer_infos_from hub_from
half_hub = refl
