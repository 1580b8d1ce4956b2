-- ===== src/Acme.antt =====
-- crates/anago-core/src/acme.rs: challenge tokens, thumbprints, and what is built of them.
pub mod Token
mod Tests
use anago.Prelude.{
  ℕ, ◌≡◌, Bool, true, false, not, ◌||◌, List, [], ◌∷◌, ◌++◌, Option, none, some, ◌==◌, nat_eq,
  if◌then◌else◌, find, length, ltb, Result, ok, err,
}
use anago.Text.{Text, lit, byte_len, init, last?, is_ascii_alphanumeric}

abbrev pub http01_prefix : Text
http01_prefix = lit "/.well-known/acme-challenge/"

abbrev pub dns01_label : Text
dns01_label = lit "_acme-challenge"

abbrev pub thumbprint_len : ℕ
thumbprint_len = 43

abbrev pub max_token_len : ℕ
max_token_len = 255

pub record ChallengeToken : Type 0 where
  pub text : Text

pub record Thumbprint : Type 0 where
  pub text : Text

pub data AcmeError : Type 0 where
  empty_token : AcmeError
  token_too_long : ℕ → AcmeError
  token_character : ℕ → AcmeError
  thumbprint_length : ℕ → AcmeError
  thumbprint_character : ℕ → AcmeError

abbrev pub is_base64url : ℕ → Bool
is_base64url c = is_ascii_alphanumeric c || (c == b'-') || (c == b'_')

-- `ChallengeToken::parse`.
unfoldable pub parse_challenge_token : Text → Result AcmeError ChallengeToken
parse_challenge_token input =
    if byte_len input == 0
    then err empty_token
    else if ltb max_token_len (byte_len input)
    then err (token_too_long (byte_len input))
    else (elim (find (λ c. not (is_base64url c)) input) [
      | some bad ↦ err (token_character bad)
      | none ↦ ok (record { text = input })
    ])

-- `Thumbprint::parse`.
unfoldable pub parse_thumbprint : Text → Result AcmeError Thumbprint
parse_thumbprint input =
    if not (length input == thumbprint_len)
    then err (thumbprint_length (length input))
    else (elim (find (λ c. not (is_base64url c)) input) [
      | some bad ↦ err (thumbprint_character bad)
      | none ↦ ok (record { text = input })
    ])

unfoldable pub http01_path : ChallengeToken → Text
http01_path token = http01_prefix ++ token.text

unfoldable pub key_authorization : ChallengeToken → Thumbprint → Text
key_authorization token thumbprint = token.text ++ b'.' ∷ thumbprint.text

-- `domain.strip_suffix('.').unwrap_or(domain)`.
abbrev pub without_dot : Text → Text
without_dot domain = elim (last? domain) [
  | none ↦ domain
  | some c ↦ if c == b'.' then init domain else domain
]

unfoldable pub dns01_record_name : Text → Text
dns01_record_name domain = dns01_label ++ b'.' ∷ without_dot domain
