-- ===== src/Proto/RoundTrip.antt =====
-- The JSON forms of the API's bodies (crates/anago-core/src/proto.rs) read back as the bodies.
use anago.Prelude.{
  ℕ, suc, ◌≡◌, ◌≤◌, refl, Option, Result, arith, List, [], ◌∷◌, map, some, none, ok, ◌>>=◌, map_err,
}
use anago.Json.Valid.{WellFormed, WellFormedItems, nesting, nesting_items}
use anago.Proto.Fields.{DecodeError}
use anago.Proto.Codes.{from_wire-as_str}
use anago.Json.Write.{to_string}
use anago.Json.Parse.{parse}
use anago.Json.RoundTrip.{parse-to_string}
use anago.Json.{Value, insert, insert_all, items_of}
use anago.Proto.{JoinRequest, JoinResponse, PeerInfo, HubInfo, PeersResponse, ApiError}
use anago.Proto.Codec.{
  join_request_to_json, join_request_from_json, join_response_to_json, join_response_from_json,
  peer_info_to_json, peer_info_from_json, peer_infos_from, hub_from, peers_response_to_json,
  peers_response_from_json, api_error_to_json, api_error_from_json,
}

request_lem : (r : JoinRequest) → join_request_from_json (join_request_to_json r) ≡ ok r
unfolding join_request_from_json insert insert_all
request_lem r = refl

pub response_lem : (r : JoinResponse) → join_response_from_json (join_response_to_json r) ≡ ok r
unfolding join_response_from_json insert insert_all
response_lem r = refl

peer_info_lem : (p : PeerInfo) → peer_info_from_json (peer_info_to_json p) ≡ ok p
unfolding peer_info_from_json insert insert_all
peer_info_lem p = refl

peer_infos_lem :
    (i : ℕ) (ps : List PeerInfo) → peer_infos_from i (items_of (map peer_info_to_json ps)) ≡ ok ps
unfolding peer_infos_from
peer_infos_lem i [] = refl
peer_infos_lem i (p ∷ ps) = rw (peer_info_lem p, map_err, ◌>>=◌, peer_infos_lem (suc i) ps) refl

peers_lem :
    (ps : List PeerInfo) (h : Option HubInfo)
    → peers_response_from_json (peers_response_to_json (record { peers = ps; hub = h }))
      ≡ ok (record { peers = ps; hub = h })
unfolding peers_response_from_json hub_from insert insert_all
peers_lem ps none = rw (peer_infos_lem 0 ps) refl
peers_lem ps (some h) = rw (peer_infos_lem 0 ps) refl

error_lem : (e : ApiError) → api_error_from_json (api_error_to_json e) ≡ ok e
unfolding api_error_from_json insert insert_all
error_lem e = rw (from_wire-as_str e.code) refl

items-WellFormed :
    (ps : List PeerInfo)
    → WellFormedItems (items_of (map peer_info_to_json ps))
      × (nesting_items (items_of (map peer_info_to_json ps)) ≤ 2)
unfolding insert insert_all
items-WellFormed [] = (tt, omega arith)
items-WellFormed (p ∷ ps) =
    let rest = items-WellFormed ps in
    ((((refl, (refl, (refl, tt))), (tt, (tt, (tt, tt)))), rest.0), ground arith)

peers-WellFormed :
    (ps : List PeerInfo) (h : Option HubInfo)
    → WellFormed (peers_response_to_json (record { peers = ps; hub = h }))
      × (nesting (peers_response_to_json (record { peers = ps; hub = h })) ≤ 3)
unfolding insert insert_all
peers-WellFormed ps none =
    let items = items-WellFormed ps in (((refl, tt), (items.0, tt)), ground arith)
peers-WellFormed ps (some h) =
    let items = items-WellFormed ps in
    (
      ((refl, (refl, (refl, (refl, (refl, tt))))), (items.0, (tt, (tt, (tt, (tt, tt)))))),
      ground arith,
    )

-- The body written for a value is the text of JSON from which the value is read.
abbrev pub ReadsBack : {A : Type 0} → (A → Value) → (Value → Result DecodeError A) → A → Type 0
ReadsBack to_json from_json a =
    (v : Value) × (parse (to_string (to_json a)) ≡ ok v) × (from_json v ≡ ok a)

through :
    {A : Type 0} (to_json : A → Value) (from_json : Value → Result DecodeError A) (a : A)
    → WellFormed (to_json a)
    → nesting (to_json a) ≤ 3
    → from_json (to_json a) ≡ ok a
    → ReadsBack to_json from_json a
through to_json from_json a w n e = (to_json a, (parse-to_string (to_json a) w (omega arith)).0, e)

pub response-parse :
    (r : JoinResponse) → parse (to_string (join_response_to_json r)) ≡ ok (join_response_to_json r)
unfolding insert insert_all
response-parse r =
    (parse-to_string (join_response_to_json r)
      (
        (refl, (refl, (refl, (refl, (refl, (refl, (refl, tt))))))),
        (tt, (tt, (tt, (tt, (tt, (tt, (tt, tt))))))),
      )
      (omega arith)).0

-- The request to join, its answer, the list of devices, with the hub's values and without, and an
-- error read back from the text that is sent for them.
pub bodies-ReadsBack :
    (request : JoinRequest) (response : JoinResponse) (peers : PeersResponse) (e : ApiError)
    → ReadsBack join_request_to_json join_request_from_json request
      × ReadsBack join_response_to_json join_response_from_json response
      × ReadsBack peers_response_to_json peers_response_from_json peers
      × ReadsBack api_error_to_json api_error_from_json e
unfolding insert insert_all
bodies-ReadsBack request response peers e = (
  through join_request_to_json join_request_from_json request
      ((refl, (refl, (refl, tt))), (tt, (tt, (tt, tt)))) (omega arith) (request_lem request),
  (join_response_to_json response, response-parse response, response_lem response),
  through peers_response_to_json peers_response_from_json peers
      (peers-WellFormed peers.peers peers.hub).0 (peers-WellFormed peers.peers peers.hub).1
      (peers_lem peers.peers peers.hub),
  through api_error_to_json api_error_from_json e ((refl, (refl, tt)), (tt, (tt, tt))) (omega arith)
      (error_lem e),
)
