-- ===== src/Device/Converge.antt =====
-- A run of `anago sync` that rewrites (crates/anago/src/sync.rs) leaves nothing to rewrite.
use anago.Prelude.{
  ◌≡◌, refl, subst, List, Option, some, arith, Result, ok, >>=-eq-ok, Option-cases, inl, inr,
}
use anago.Ipv4
use anago.Ipv4.{IsOctets}
use anago.Ipv4.RoundTrip.{parse-display}
use anago.Ipv4.Canonical.{parse-eq-some}
use anago.Sync.{Local, Reported, Member, Changes, Outcome, unchanged, rewrite, decide}
use anago.Sync.Decide.{Says, decide-Says, decide-unchanged}
use anago.Proto.{PeersResponse, HubInfo}
use anago.Api.{Env}
use anago.Device.{
  DeviceConfig, SyncError, local_of, checked_hub, reported_of, roster_of, updated, judge,
}

-- What a run that decides something has read.
pub record Judges (env : Env) (config : DeviceConfig) (response : PeersResponse) (outcome : Outcome)
    : Type 0 where
  pub local : Local
  pub local_eq : local_of env config ≡ ok local
  pub reported : Option Reported
  pub reported_eq : reported_of response ≡ ok reported
  pub roster : List Member
  pub roster_eq : roster_of env response ≡ ok roster
  pub decided : decide local reported roster ≡ outcome

pub judge-Judges :
    (env : Env) (config : DeviceConfig) (response : PeersResponse) {outcome : Outcome}
    → judge env config response ≡ ok outcome
    → Judges env config response outcome
unfolding judge
judge-Judges env config response h =
    let (local, a, rest) = >>=-eq-ok (local_of env config) _ h in
    let (reported, b, rest') = >>=-eq-ok (reported_of response) _ rest in
    let (roster, c, last) = >>=-eq-ok (roster_of env response) _ rest' in
    record {
      local = local;
      local_eq = a;
      reported = reported;
      reported_eq = b;
      roster = roster;
      roster_eq = c;
      decided = ground arith;
    }

pub Judges-judge :
    (env : Env) (config : DeviceConfig) (response : PeersResponse) {outcome : Outcome}
    → Judges env config response outcome
    → judge env config response ≡ ok outcome
unfolding judge
Judges-judge env config response j =
    ground (arith, j.local_eq, j.reported_eq, j.roster_eq, j.decided)

checked_hub-IsOctets :
    (hub : HubInfo) {r : Reported} → checked_hub hub ≡ ok r → IsOctets r.server_address
unfolding checked_hub
checked_hub-IsOctets hub {r} h =
    let parsed : Ipv4.parse hub.server_address ≡ some r.server_address = ground arith in
    (parse-eq-some hub.server_address parsed).1

reported_of-IsOctets :
    (response : PeersResponse) {r : Reported}
    → reported_of response ≡ ok (some r)
    → IsOctets r.server_address
unfolding reported_of
reported_of-IsOctets response {r} h = elim (Option-cases response.hub) [
  | inl e ↦ absurd (ground (arith, rw (e, reported_of) at h))
  | inr (hub, e) ↦
      let checked : checked_hub hub ≡ ok r = ground (arith, rw (e, reported_of) at h) in
      checked_hub-IsOctets hub checked
]

local_of-updated :
    (env : Env) (config : DeviceConfig) {local : Local} (r : Reported)
    → IsOctets r.server_address
    → local_of env config ≡ ok local
    → local_of env (updated config (some r))
      ≡ ok (record local {
        server_public_key = r.server_public_key;
        server_endpoint = r.server_endpoint;
        server_address = r.server_address;
      })
unfolding local_of updated
local_of-updated env config r octets h = ground (arith, parse-display r.server_address octets, h)

-- One result is one value.
same_reported :
    (m : Result SyncError (Option Reported)) (x : Option Reported) (q r : Reported)
    → m ≡ ok x
    → m ≡ ok (some r)
    → x ≡ some q
    → q ≡ r
same_reported m x q r a b c = ground arith

-- One rewrite is enough: after a run that rewrites, the device file as it is written then, against
-- the same answer of the hub, decides that nothing changed.
pub judge-updated :
    (env : Env) (config : DeviceConfig) (response : PeersResponse) (r : Reported)
    {changes : Changes}
    → reported_of response ≡ ok (some r)
    → judge env config response ≡ ok (rewrite changes)
    → judge env (updated config (some r)) response ≡ ok unchanged
judge-updated env config response r {changes} e h =
    let j = judge-Judges env config response h in
    let (q, same, listed, subnet, key, endpoint, address, moved) =
      subst (Says j.local j.reported j.roster) j.decided
        (decide-Says j.local j.reported j.roster) in
    let one = same_reported (reported_of response) j.reported q r j.reported_eq e same in
    Judges-judge env (updated config (some r)) response (record {
      local = record j.local {
        server_public_key = r.server_public_key;
        server_endpoint = r.server_endpoint;
        server_address = r.server_address;
      };
      local_eq = local_of-updated env config r (reported_of-IsOctets response e) j.local_eq;
      reported = some r;
      reported_eq = e;
      roster = j.roster;
      roster_eq = j.roster_eq;
      decided =
          decide-unchanged _ r j.roster listed (subst (λ x. x.subnet ≡ j.local.subnet) one subnet)
            refl refl refl;
    })
