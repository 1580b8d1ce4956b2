-- ===== src/Statefile/Records.antt =====
-- crates/anago-core/src/state.rs, lines 440 to 628: the JSON forms of the parts of the state.
use anago.Prelude.{
  Bool, true, false, [], ◌∷◌, Option, none, some, Result, ok, err, ok_or, map_err, ◌>>=◌,
  if◌then◌else◌, ◌==◌, list_eq, nat_eq,
}
use anago.Text.{Text, lit}
use anago.Ipv4
use anago.Name
use anago.Name.{Unicode}
use anago.Token.{parse_hash}
use anago.Code
use anago.Code.{IssuedCode}
use anago.Tls.{Acme, Tls, TlsSource, manual, acme, challenge_text, parse_challenge, tls_manual}
use anago.State.{Cloudflare, ServerKeys, Peer}
use anago.Json.{Value, null, int, str, Fields, literal_obj}
use anago.Proto.Fields.{object, string_field}
use anago.Statefile.{
  StateError, bad_value, bad_name, bad_hash, bad_code, not_source, not_challenge, manual_with_acme,
  acme_without, lift, lift_in, state_within, opt_str, opt_time, int_field, object_field,
  opt_int_field, opt_string_field, opt_object_field, address_field,
}

abbrev pub acme_to_json : Acme → Value
acme_to_json a = literal_obj (
    (lit "directory", str a.directory)
    ∷ (lit "contact", opt_str a.contact)
    ∷ (lit "account_key_path", str a.account_key_path)
    ∷ (lit "account_url", str a.account_url)
    ∷ (lit "challenge", str (challenge_text a.challenge))
    ∷ (lit "issued_at", int a.issued_at)
    ∷ (lit "renew_after", int a.renew_after)
    ∷ [])

unfoldable pub acme_from_json : Fields → Result StateError Acme
acme_from_json fs = do
  challenge ← lift_in (lit "tls.acme") (string_field fs (lit "challenge"))
  directory ← lift_in (lit "tls.acme") (string_field fs (lit "directory"))
  contact ← lift_in (lit "tls.acme") (opt_string_field fs (lit "contact"))
  account_key_path ← lift_in (lit "tls.acme") (string_field fs (lit "account_key_path"))
  account_url ← lift_in (lit "tls.acme") (string_field fs (lit "account_url"))
  kind ←
      ok_or (parse_challenge challenge)
        (bad_value (lit "tls.acme.challenge") (not_challenge challenge))
  issued_at ← lift_in (lit "tls.acme") (int_field fs (lit "issued_at"))
  renew_after ← lift_in (lit "tls.acme") (int_field fs (lit "renew_after"))
  ok (record {
    directory = directory;
    contact = contact;
    account_key_path = account_key_path;
    account_url = account_url;
    challenge = kind;
    issued_at = issued_at;
    renew_after = renew_after;
  })

abbrev pub source_text : TlsSource → Text
source_text manual = lit "manual"
source_text (acme a) = lit "acme"

abbrev pub source_acme : TlsSource → Value
source_acme manual = null
source_acme (acme a) = acme_to_json a

abbrev pub tls_to_json : Tls → Value
tls_to_json t = literal_obj (
    (lit "source", str (source_text t.source))
    ∷ (lit "cert_path", str t.cert_path)
    ∷ (lit "key_path", str t.key_path)
    ∷ (lit "not_after", opt_time t.not_after)
    ∷ (lit "acme", source_acme t.source)
    ∷ [])

-- The `match` on the source and the details.
unfoldable pub source_from : Text → Option Fields → Result StateError TlsSource
source_from text none =
    if text == lit "manual"
    then ok manual
    else if text == lit "acme"
    then err (bad_value (lit "tls.acme") acme_without)
    else err (bad_value (lit "tls.source") (not_source text))
source_from text (some found) =
    if text == lit "acme"
    then (do a ← acme_from_json found; ok (acme a))
    else if text == lit "manual"
    then err (bad_value (lit "tls.acme") manual_with_acme)
    else err (bad_value (lit "tls.source") (not_source text))

-- The two flat paths of a version 1 file.
abbrev pub legacy_tls : Fields → Result StateError Tls
legacy_tls fs = do
  cert_path ← lift (string_field fs (lit "tls_cert_path"))
  key_path ← lift (string_field fs (lit "tls_key_path"))
  ok (tls_manual cert_path key_path)

abbrev pub current_tls : Fields → Result StateError Tls
current_tls fs = do
  tls ← lift (object_field fs (lit "tls"))
  text ← lift_in (lit "tls") (string_field tls (lit "source"))
  details ← lift_in (lit "tls") (opt_object_field tls (lit "acme"))
  source ← source_from text details
  cert_path ← lift_in (lit "tls") (string_field tls (lit "cert_path"))
  key_path ← lift_in (lit "tls") (string_field tls (lit "key_path"))
  not_after ← lift_in (lit "tls") (opt_int_field tls (lit "not_after"))
  ok (record { cert_path = cert_path; key_path = key_path; not_after = not_after; source = source })

-- Of the two versions that are read; `legacy` says which it is.
unfoldable pub tls_from_json : Fields → Bool → Result StateError Tls
tls_from_json fs true = legacy_tls fs
tls_from_json fs false = current_tls fs

abbrev pub cloudflare_to_json : Option Cloudflare → Value
cloudflare_to_json none = null
cloudflare_to_json (some cf) = literal_obj (
    (lit "zone_id", str cf.zone_id)
    ∷ (lit "record_id", opt_str cf.record_id)
    ∷ (lit "token_path", opt_str cf.token_path)
    ∷ [])

abbrev pub read_cloudflare : Option Fields → Result StateError (Option Cloudflare)
read_cloudflare none = ok none
read_cloudflare (some cf) = do
  zone_id ← lift_in (lit "cloudflare") (string_field cf (lit "zone_id"))
  record_id ← lift_in (lit "cloudflare") (opt_string_field cf (lit "record_id"))
  token_path ← lift_in (lit "cloudflare") (opt_string_field cf (lit "token_path"))
  ok (some (record { zone_id = zone_id; record_id = record_id; token_path = token_path }))

unfoldable pub cloudflare_from_json : Fields → Bool → Result StateError (Option Cloudflare)
cloudflare_from_json fs true = ok none
cloudflare_from_json fs false = do
  found ← lift (opt_object_field fs (lit "cloudflare"))
  read_cloudflare found

abbrev pub peer_to_json : Peer → Value
peer_to_json p = literal_obj (
    (lit "name", str p.name.text)
    ∷ (lit "public_key", str p.public_key)
    ∷ (lit "address", str (Ipv4.display p.address))
    ∷ (lit "token_hash", str p.token_hash.hex)
    ∷ (lit "created_at", int p.created_at)
    ∷ (lit "last_seen", opt_time p.last_seen)
    ∷ [])

unfoldable pub peer_from_json : Unicode → Value → Result StateError Peer
peer_from_json u v = do
  fs ← lift (object v)
  name_text ← lift (string_field fs (lit "name"))
  hash_text ← lift (string_field fs (lit "token_hash"))
  name ← map_err (Name.parse u name_text) (λ e. bad_value (lit "name") (bad_name e))
  public_key ← lift (string_field fs (lit "public_key"))
  address ← address_field fs (lit "address")
  hash ← map_err (parse_hash hash_text) (λ e. bad_value (lit "token_hash") (bad_hash e))
  created_at ← lift (int_field fs (lit "created_at"))
  last_seen ← lift (opt_int_field fs (lit "last_seen"))
  ok (record {
    name = name;
    public_key = public_key;
    address = address;
    token_hash = hash;
    created_at = created_at;
    last_seen = last_seen;
  })

abbrev pub code_to_json : IssuedCode → Value
code_to_json c = literal_obj (
    (lit "code", str c.code.text)
    ∷ (lit "issued_at", int c.issued_at)
    ∷ (lit "expires_at", int c.expires)
    ∷ (lit "used_at", opt_time c.used_at)
    ∷ [])

unfoldable pub code_from_json : Value → Result StateError IssuedCode
code_from_json v = do
  fs ← lift (object v)
  text ← lift (string_field fs (lit "code"))
  code ← map_err (Code.parse text) (λ e. bad_value (lit "code") (bad_code e))
  issued_at ← lift (int_field fs (lit "issued_at"))
  expires ← lift (int_field fs (lit "expires_at"))
  used_at ← lift (opt_int_field fs (lit "used_at"))
  ok (record { code = code; issued_at = issued_at; expires = expires; used_at = used_at })

abbrev pub server_to_json : ServerKeys → Value
server_to_json s = literal_obj (
    (lit "private_key", str s.private_key)
    ∷ (lit "public_key", str s.public_key)
    ∷ (lit "address", str (Ipv4.display s.address))
    ∷ [])

unfoldable pub server_from_json : Value → Result StateError ServerKeys
server_from_json v = do
  fs ← lift_in (lit "server") (object v)
  private_key ← lift_in (lit "server") (string_field fs (lit "private_key"))
  public_key ← lift_in (lit "server") (string_field fs (lit "public_key"))
  address ← map_err (address_field fs (lit "address")) (state_within (lit "server"))
  ok (record { private_key = private_key; public_key = public_key; address = address })
