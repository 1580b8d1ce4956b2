-- ===== src/Tls/Schedule.antt =====
-- When a certificate is renewed (crates/anago-core/src/state.rs).
use anago.Prelude.{
  ℕ, ◌+◌, ◌-◌, ◌*◌, ◌/◌, ◌≤◌, ◌≡◌, refl, subst, ◌↔◌, ◌⊎◌, inl, inr, true, false, Option, none, some,
  arith, Bool-cases,
}
use anago.Prelude.Int.{ℤ, pos, ◌+ℤ◌, ◌≤ℤ◌, ltb_ℤ, int_laws}
use anago.Prelude.I64.{
  IsI64, ◌<ℤ◌, geb_ℤ, saturating_add, saturating_sub, saturating_mul, div_trunc, min_ℤ, max_ℤ,
  bound,
}
use anago.Text.{Text}
use anago.Tls.{
  Acme, Tls, TlsSource, manual, acme, renew_after, issued, safety_net_at, renewal_due,
  tls_renewal_due, tls_needs_renewal,
}

-- The renewal is planned inside the lifetime, whatever overflows.
pub renew_after_within :
    (issued_at not_after : ℤ)
    → IsI64 issued_at
    → IsI64 not_after
    → issued_at ≤ℤ not_after
    → (issued_at ≤ℤ renew_after issued_at (some not_after))
      × (renew_after issued_at (some not_after) ≤ℤ not_after)
unfolding renew_after saturating_add saturating_sub saturating_mul div_trunc
renew_after_within t n p q h = ground arith

-- Two thirds of the lifetime, rounded down, where twice the lifetime fits.
pub renew_after_lem :
    (issued_at not_after : ℕ)
    → issued_at ≤ not_after
    → not_after ≤ bound
    → 2 * (not_after - issued_at) ≤ bound
    → renew_after (pos issued_at) (some (pos not_after))
      ≡ pos (issued_at + 2 * (not_after - issued_at) / 3)
unfolding renew_after saturating_add saturating_sub saturating_mul div_trunc
renew_after_lem t n p q h = ground arith

-- The plan is reached, or the expiry is, or the lead before the expiry.
abbrev pub Reached : ℤ → Option ℤ → ℤ → ℤ → Type 0
Reached planned not_after now lead_secs =
    (planned ≤ℤ now) ⊎ ((n : ℤ) × (not_after ≡ some n) × ((n ≤ℤ now) ⊎ (n ≤ℤ now +ℤ lead_secs)))

safety_net_at-le_iff :
    (n now lead_secs : ℤ)
    → IsI64 n
    → IsI64 now
    → (safety_net_at n lead_secs ≤ℤ now) ↔ ((n ≤ℤ now) ⊎ (n ≤ℤ now +ℤ lead_secs))
unfolding safety_net_at saturating_sub max_ℤ ◌+ℤ◌
safety_net_at-le_iff n now lead p q = ground arith

renewal_due-Reached :
    (planned : ℤ) (not_after : Option ℤ) (now lead_secs : ℤ)
    → ((n : ℤ) → not_after ≡ some n → IsI64 n)
    → IsI64 now
    → geb_ℤ now (renewal_due planned not_after lead_secs) ≡ true
    → Reached planned not_after now lead_secs
unfolding renewal_due min_ℤ
renewal_due-Reached p none now lead w q h = inl (ground arith)
renewal_due-Reached p (some n) now lead w q h = elim (Bool-cases (ltb_ℤ (safety_net_at n lead) p)) [
  | inl net ↦ inr (n, refl, (safety_net_at-le_iff n now lead (w n refl) q).0 (ground arith))
  | inr plan ↦ inl (ground arith)
]

Reached-renewal_due :
    (planned : ℤ) (not_after : Option ℤ) (now lead_secs : ℤ)
    → ((n : ℤ) → not_after ≡ some n → IsI64 n)
    → IsI64 now
    → Reached planned not_after now lead_secs
    → geb_ℤ now (renewal_due planned not_after lead_secs) ≡ true
unfolding renewal_due min_ℤ
Reached-renewal_due p none now lead w q (inl h) = ground arith
Reached-renewal_due p none now lead w q (inr (n, e, h)) = absurd (ground arith)
Reached-renewal_due p (some m) now lead w q (inl h) = ground arith
Reached-renewal_due p (some m) now lead w q (inr (n, e, h)) =
    let same : n ≡ m = ground arith in
    let net = (safety_net_at-le_iff n now lead (w n e) q).1 h in
    let moved : safety_net_at m lead ≤ℤ now = subst (λ k. safety_net_at k lead ≤ℤ now) same net in
    ground arith

-- A certificate that anago renews, by where it comes from.
abbrev pub IsDue : TlsSource → Option ℤ → ℤ → ℤ → Type 0
IsDue manual not_after now lead_secs = ⊥
IsDue (acme a) not_after now lead_secs = Reached a.renew_after not_after now lead_secs

IsDue-iff :
    (source : TlsSource) (cert key : Text) (not_after : Option ℤ) (now lead_secs : ℤ)
    → ((n : ℤ) → not_after ≡ some n → IsI64 n)
    → IsI64 now
    → (tls_needs_renewal
          (record { cert_path = cert; key_path = key; not_after = not_after; source = source })
          now
          lead_secs
        ≡ true)
      ↔ IsDue source not_after now lead_secs
unfolding tls_needs_renewal tls_renewal_due
IsDue-iff manual cert key na now lead w q = (λ h. ground arith, λ h. absurd h)
IsDue-iff (acme a) cert key na now lead w q = (
  renewal_due-Reached a.renew_after na now lead w q,
  Reached-renewal_due a.renew_after na now lead w q,
)

-- For an expiry and a time now that are 64-bit integers: renewal is due exactly for an ACME
-- certificate whose planned time is reached, or whose expiry, where it is known, is not later than
-- now or than the lead from now. A lead below zero counts as none, and nothing overflows.
pub tls_needs_renewal_iff :
    (t : Tls) (now lead_secs : ℤ)
    → ((n : ℤ) → t.not_after ≡ some n → IsI64 n)
    → IsI64 now
    → (tls_needs_renewal t now lead_secs ≡ true) ↔ IsDue t.source t.not_after now lead_secs
tls_needs_renewal_iff t now lead w q =
    IsDue-iff t.source t.cert_path t.key_path t.not_after now lead w q

-- What is due stays due.
pub tls_needs_renewal_mono :
    (t : Tls) (now later lead_secs : ℤ)
    → now ≤ℤ later
    → tls_needs_renewal t now lead_secs ≡ true
    → tls_needs_renewal t later lead_secs ≡ true
unfolding tls_needs_renewal
tls_needs_renewal_mono t now later lead h = ground arith

-- The net never lies behind the expiry.
pub safety_net_at-le : (n lead_secs : ℤ) → IsI64 n → safety_net_at n lead_secs ≤ℤ n
unfolding safety_net_at saturating_sub max_ℤ
safety_net_at-le n lead p = ground arith

renew_after_later :
    (at n : ℤ) → IsI64 at → IsI64 n → at +ℤ pos 2 ≤ℤ n → at <ℤ renew_after at (some n)
unfolding renew_after saturating_add saturating_sub saturating_mul div_trunc
renew_after_later at n p q h = ground arith

safety_net_at_later :
    (at n lead_secs : ℤ)
    → IsI64 at
    → IsI64 n
    → at <ℤ n
    → at +ℤ lead_secs <ℤ n
    → at <ℤ safety_net_at n lead_secs
unfolding safety_net_at saturating_sub max_ℤ ◌+ℤ◌
safety_net_at_later at n lead p q h k = ground arith

-- A renewal settles the matter: with a lifetime of two seconds or more, and the lead not reached,
-- the certificate that was just recorded is not due.
pub issued-tls_needs_renewal :
    (t : Tls) (a : Acme) (at n lead_secs : ℤ)
    → IsI64 at
    → IsI64 n
    → at +ℤ pos 2 ≤ℤ n
    → at +ℤ lead_secs <ℤ n
    → tls_needs_renewal
        (record t { not_after = some n; source = acme (issued a at (some n)) })
        at
        lead_secs
      ≡ false
unfolding tls_needs_renewal tls_renewal_due renewal_due issued min_ℤ
issued-tls_needs_renewal t a at n lead p q h k =
    ground
      (arith, renew_after_later at n p q h, safety_net_at_later at n lead p q (omega int_laws) k)
