-- ===== src/Tls.antt =====
-- crates/anago-core/src/state.rs, lines 30 to 290: where the certificate comes from, and when it
-- is renewed.
pub mod Schedule
mod Tests
use anago.Prelude.{
  ℕ, ◌+◌, ◌*◌, ◌≡◌, Bool, true, false, not, Option, none, some, if◌then◌else◌, arith, ◌==◌, list_eq,
  nat_eq,
}
use anago.Prelude.Int.{ℤ, pos, ltb_ℤ}
use anago.Prelude.I64.{
  saturating_add, saturating_sub, saturating_mul, div_trunc, min_ℤ, max_ℤ, geb_ℤ,
}
use anago.Text.{Text, lit}

abbrev pub day_secs : ℕ
day_secs = 86_400

abbrev pub renewal_lead_secs : ℤ
renewal_lead_secs = pos (7 * day_secs)

abbrev pub unknown_lifetime_renew_secs : ℤ
unknown_lifetime_renew_secs = pos (30 * day_secs)

pub data Challenge : Type 0 where
  http01 dns01 : Challenge

unfoldable pub challenge_text : Challenge → Text
challenge_text http01 = lit "http-01"
challenge_text dns01 = lit "dns-01"

unfoldable pub parse_challenge : Text → Option Challenge
parse_challenge text =
    if text == lit "http-01" then some http01 else if text == lit "dns-01" then some dns01 else none

pub record Acme : Type 0 where
  pub directory : Text
  pub contact : Option Text
  pub account_key_path : Text
  pub account_url : Text
  pub challenge : Challenge
  pub issued_at : ℤ
  pub renew_after : ℤ

-- The free function `renew_after`: two thirds of the lifetime, or thirty days where it is unknown.
unfoldable pub renew_after : ℤ → Option ℤ → ℤ
renew_after issued_at none = saturating_add issued_at unknown_lifetime_renew_secs
renew_after issued_at (some not_after) =
    let lifetime = saturating_sub not_after issued_at in
    saturating_add issued_at (div_trunc (saturating_mul lifetime (pos 2)) 3)

-- `Acme::issued`.
unfoldable pub issued : Acme → ℤ → Option ℤ → Acme
issued acme at not_after = record acme { issued_at = at; renew_after = renew_after at not_after }

unfoldable pub safety_net_at : ℤ → ℤ → ℤ
safety_net_at expires_at lead_secs = saturating_sub expires_at (max_ℤ lead_secs (pos 0))

-- The free function `needs_renewal`.
unfoldable pub needs_renewal : ℤ → ℤ → ℤ → Bool
needs_renewal expires_at now lead_secs = geb_ℤ now (safety_net_at expires_at lead_secs)

-- The free function `renewal_due`.
unfoldable pub renewal_due : ℤ → Option ℤ → ℤ → ℤ
renewal_due planned none lead_secs = planned
renewal_due planned (some not_after) lead_secs = min_ℤ planned (safety_net_at not_after lead_secs)

pub data TlsSource : Type 0 where
  manual : TlsSource
  acme : Acme → TlsSource

pub record Tls : Type 0 where
  pub cert_path : Text
  pub key_path : Text
  pub not_after : Option ℤ
  pub source : TlsSource

-- `Tls::manual` and `Tls::acme`.
unfoldable pub tls_manual : Text → Text → Tls
tls_manual cert key = record { cert_path = cert; key_path = key; not_after = none; source = manual }

unfoldable pub tls_acme : Text → Text → Acme → Tls
tls_acme cert key a = record { cert_path = cert; key_path = key; not_after = none; source = acme a }

-- `Tls::renewable`.
abbrev pub renewable : TlsSource → Option Acme
renewable manual = none
renewable (acme a) = some a

-- `Tls::renewal_due`.
unfoldable pub tls_renewal_due : Tls → ℤ → Option ℤ
tls_renewal_due t lead_secs = elim (renewable t.source) [
  | none ↦ none
  | some a ↦ some (renewal_due a.renew_after t.not_after lead_secs)
]

-- `Tls::needs_renewal`.
unfoldable pub tls_needs_renewal : Tls → ℤ → ℤ → Bool
tls_needs_renewal t now lead_secs = elim (tls_renewal_due t lead_secs) [
  | none ↦ false
  | some due ↦ geb_ℤ now due
]
