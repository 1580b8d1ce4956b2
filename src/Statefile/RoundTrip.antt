-- ===== src/Statefile/RoundTrip.antt =====
-- The state file (crates/anago-core/src/state.rs) reads back as the state it was written for.
use anago.Prelude.{
  ℕ, suc, ◌≡◌, ◌≤◌, refl, List, [], ◌∷◌, map, some, none, Option, ok, ◌>>=◌, map_err, All, false,
  true, leb, ◌==◌, tests,
}
use anago.Prelude.Int.{ℤ}
use anago.Prelude.I64.{IsI64}
use anago.Ipv4.{IsOctets, addr_eq}
use anago.Ipv4.RoundTrip.{parse-display}
use anago.Name
use anago.Name.{Unicode}
use anago.Token.{parse_hash}
use anago.Code
use anago.Code.{IssuedCode}
use anago.Tls.{
  Challenge, Acme, Tls, TlsSource, manual, acme, parse_challenge, challenge_text, http01, dns01,
}
use anago.Subnet
use anago.Subnet.{server_address}
use anago.Statefile.Whole.{read_peers, read_codes, from_json, to_json}
use anago.State.{Peer, ServerState, ServerKeys, Cloudflare}
use anago.Json.{Value, obj, end, Fields, get, as_i64, as_str, insert, insert_all, items_of}
use anago.Statefile.{object_field, opt_object_field, opt_field_by, lift, or_null, opt_time, opt_str}
use anago.Text.{Text, lit}
use anago.Proto.Fields.{field_by}
use anago.Statefile.Records.{
  tls_to_json, tls_from_json, cloudflare_to_json, cloudflare_from_json, peer_to_json,
  peer_from_json, code_to_json, code_from_json, server_to_json, server_from_json, acme_from_json,
  current_tls, source_from,
}

-- A device whose name, address and hash are in the form that their parsers return, with times in
-- the range of `i64`.
abbrev pub IsTime? : Option ℤ → Type 0
IsTime? none = Unit
IsTime? (some at) = IsI64 at

pub record IsStoredPeer (u : Unicode) (p : Peer) : Type 0 where
  pub name_eq : Name.parse u p.name.text ≡ ok p.name
  pub octets : IsOctets p.address
  pub hash_eq : parse_hash p.token_hash.hex ≡ ok p.token_hash
  pub created : IsI64 p.created_at
  pub seen : IsTime? p.last_seen

pub record IsStoredCode (c : IssuedCode) : Type 0 where
  pub code_eq : Code.parse c.code.text ≡ ok c.code
  pub issued : IsI64 c.issued_at
  pub expires : IsI64 c.expires
  pub used : IsTime? c.used_at

time_lem : (t : Option ℤ) (name : Text) → or_null as_i64 (opt_time t) name ≡ ok t
time_lem none name = refl
time_lem (some at) name = refl

text_lem : (t : Option Text) (name : Text) → or_null as_str (opt_str t) name ≡ ok t
text_lem none name = refl
text_lem (some s) name = refl

peer_lem : (u : Unicode) (p : Peer) → IsStoredPeer u p → peer_from_json u (peer_to_json p) ≡ ok p
unfolding peer_from_json insert insert_all
peer_lem u p h =
    rw
      (
        h.name_eq,
        parse-display p.address h.octets,
        h.hash_eq,
        time_lem p.last_seen (lit "last_seen"),
      )
      refl

server_lem : (s : ServerKeys) → IsOctets s.address → server_from_json (server_to_json s) ≡ ok s
unfolding server_from_json insert insert_all
server_lem s h = rw (parse-display s.address h) refl

code_lem : (c : IssuedCode) → IsStoredCode c → code_from_json (code_to_json c) ≡ ok c
unfolding code_from_json insert insert_all
code_lem c h = rw (h.code_eq, time_lem c.used_at (lit "used_at")) refl

challenge_lem : (c : Challenge) → parse_challenge (challenge_text c) ≡ some c
unfolding parse_challenge challenge_text
challenge_lem http01 = refl
challenge_lem dns01 = refl

tls_lem :
    (fs : Fields) (cert key : Text) (expiry : Option ℤ) (source : TlsSource)
    → let t : Tls = record {
      cert_path = cert;
      key_path = key;
      not_after = expiry;
      source = source;
    } in
      get fs (lit "tls") ≡ some (tls_to_json t) → tls_from_json fs false ≡ ok t
unfolding tls_from_json source_from acme_from_json insert insert_all
tls_lem fs cert key expiry manual h =
    rw (current_tls, lift, object_field, field_by, h, time_lem expiry (lit "not_after")) refl
tls_lem fs cert key expiry (acme a) h =
    rw
      (
        current_tls,
        lift,
        object_field,
        field_by,
        h,
        text_lem a.contact (lit "contact"),
        challenge_lem a.challenge,
        time_lem expiry (lit "not_after"),
      )
      refl

cloudflare_lem :
    (fs : Fields) (c : Option Cloudflare)
    → get fs (lit "cloudflare") ≡ some (cloudflare_to_json c)
    → cloudflare_from_json fs false ≡ ok c
unfolding cloudflare_from_json insert insert_all
cloudflare_lem fs none h = rw (lift, opt_object_field, opt_field_by, h) refl
cloudflare_lem fs (some c) h =
    rw
      (
        lift,
        opt_object_field,
        opt_field_by,
        h,
        text_lem c.record_id (lit "record_id"),
        text_lem c.token_path (lit "token_path"),
      )
      refl

all_peers :
    (u : Unicode) (i : ℕ) (ps : List Peer)
    → All (IsStoredPeer u) ps
    → read_peers (peer_from_json u) i (items_of (map peer_to_json ps)) ≡ ok ps
unfolding read_peers
all_peers u i [] h = refl
all_peers u i (p ∷ ps) h = rw (peer_lem u p h.0, map_err, ◌>>=◌, all_peers u (suc i) ps h.1) refl

all_codes :
    (i : ℕ) (cs : List IssuedCode)
    → All IsStoredCode cs
    → read_codes i (items_of (map code_to_json cs)) ≡ ok cs
unfolding read_codes
all_codes i [] h = refl
all_codes i (c ∷ cs) h = rw (code_lem c h.0, map_err, ◌>>=◌, all_codes (suc i) cs h.1) refl

-- A state as the hub keeps it: each part in the form that its parser returns, its own address the
-- first of its network, ports of 16 bits, and times in the range of `i64`.
pub record IsStored (u : Unicode) (s : ServerState) : Type 0 where
  pub subnet_eq : Subnet.parse (Subnet.display s.subnet) ≡ ok s.subnet
  pub address_eq : s.server.address ≡ server_address s.subnet
  pub octets : IsOctets s.server.address
  pub listen : s.listen_port ≤ 0xffff
  pub api : s.api_port ≤ 0xffff
  pub expiry : IsTime? s.tls.not_after
  pub times : (a : Acme) → s.tls.source ≡ acme a → IsI64 a.issued_at × IsI64 a.renew_after
  pub peers_stored : All (IsStoredPeer u) s.peers
  pub codes_stored : All IsStoredCode s.codes

abbrev fields_of : Value → Fields
fields_of (obj fs) = fs
fields_of _ = end

pub from_json-to_json :
    (u : Unicode) (s : ServerState) → IsStored u s → from_json u (to_json s) ≡ ok s
unfolding from_json insert insert_all
from_json-to_json u s h =
    let same : (s.server.address == server_address s.subnet) ≡ true =
      (addr_eq.beq_iff _ _).1 h.address_eq in
    let l : leb s.listen_port 0xffff ≡ true = omega tests in
    let a : leb s.api_port 0xffff ≡ true = omega tests in
    let fs = fields_of (to_json s) in
    rw
      (
        h.subnet_eq,
        server_lem s.server h.octets,
        same,
        all_peers u 0 s.peers h.peers_stored,
        all_codes 0 s.codes h.codes_stored,
        l,
        a,
        tls_lem fs s.tls.cert_path s.tls.key_path s.tls.not_after s.tls.source refl,
        cloudflare_lem fs s.cloudflare refl,
      )
      refl
