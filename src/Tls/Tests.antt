-- ===== src/Tls/Tests.antt =====
-- Runs of the renewal schedule of crates/anago-core/src/state.rs.
use anago.Prelude.{ℕ, ◌+◌, ◌-◌, ◌*◌, ◌/◌, ◌≡◌, refl, ◌↔◌, true, none, some, arith}
use anago.Prelude.Int.{pos}
use anago.Prelude.I64.{saturating_add, saturating_sub, saturating_mul, div_trunc, min_ℤ, max_ℤ}
use anago.Text.{lit}
use anago.Tls.{
  Acme, Tls, http01, acme, renew_after, tls_needs_renewal, tls_renewal_due, renewal_due,
  safety_net_at, renewal_lead_secs,
}
use anago.Tls.Schedule.{renew_after_lem, tls_needs_renewal_iff, IsDue}

abbrev day : ℕ
day = 86_400

abbrev account : Acme
account = record {
  directory = lit "https://acme.test/directory";
  contact = none;
  account_key_path = lit "account.key";
  account_url = lit "https://acme.test/acct/1";
  challenge = http01;
  issued_at = pos 0;
  renew_after = pos (60 * day);
}

abbrev tls : Tls
tls = record {
  cert_path = lit "cert.pem";
  key_path = lit "key.pem";
  not_after = some (pos (90 * day));
  source = acme account;
}

renew_after_ninety : renew_after (pos 0) (some (pos (90 * day))) ≡ pos (60 * day)
unfolding renew_after saturating_add saturating_sub saturating_mul div_trunc
renew_after_ninety = refl

renew_after_backwards : renew_after (pos 10) (some (pos 4)) ≡ pos 6
unfolding renew_after saturating_add saturating_sub saturating_mul div_trunc
renew_after_backwards = refl

due_at_plan : tls_needs_renewal tls (pos (60 * day)) renewal_lead_secs ≡ true
unfolding tls_needs_renewal tls_renewal_due renewal_due safety_net_at saturating_sub min_ℤ max_ℤ
due_at_plan = refl

renew_after_lem_example :
    renew_after (pos 0) (some (pos (90 * day))) ≡ pos (0 + 2 * (90 * day - 0) / 3)
renew_after_lem_example = renew_after_lem 0 (90 * day) (omega arith) (omega arith) (omega arith)

tls_needs_renewal_iff_example :
    (tls_needs_renewal tls (pos (60 * day)) renewal_lead_secs ≡ true)
    ↔ IsDue tls.source tls.not_after (pos (60 * day)) renewal_lead_secs
tls_needs_renewal_iff_example =
    tls_needs_renewal_iff tls (pos (60 * day)) renewal_lead_secs (λ n e. ground arith)
      (omega arith, omega arith)
