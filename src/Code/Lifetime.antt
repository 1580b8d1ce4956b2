-- ===== src/Code/Lifetime.antt =====
-- The lifetime of join codes (crates/anago-core/src/code.rs).
use anago.Prelude.{◌≡◌, ◌≢◌, ◌↔◌, true, none, arith}
use anago.Prelude.Int.{ℤ, pos, ◌+ℤ◌, ◌≤ℤ◌}
use anago.Prelude.I64.{IsI64, i64_max, ◌<ℤ◌, saturating_add}
use anago.Code.{
  JoinCode, IssuedCode, issue, is_usable, issued_status, status, expires_at, used, expired,
}

-- A fresh code is usable before its expiry and before the end of time, and then never: the expiry
-- itself is out, whatever overflows, and a time before the issue is in.
pub is_usable-issue :
    (code : JoinCode) (issued_at ttl_secs now : ℤ)
    → IsI64 now
    → (is_usable (issue code issued_at ttl_secs) now ≡ true)
      ↔ ((now <ℤ issued_at +ℤ ttl_secs) × (now <ℤ i64_max))
unfolding is_usable issue issued_status status expires_at saturating_add
is_usable-issue code t l now r = (λ h. ground arith, λ h. ground arith)

-- The three answers, by what the state file stores: spent wins over late.
pub issued_status_iff :
    (i : IssuedCode) (now : ℤ)
    → ((issued_status i now ≡ used) ↔ (i.used_at ≢ none))
      × ((issued_status i now ≡ expired) ↔ ((i.used_at ≡ none) × (i.expires ≤ℤ now)))
      × ((is_usable i now ≡ true) ↔ ((i.used_at ≡ none) × (now <ℤ i.expires)))
unfolding is_usable issued_status status
issued_status_iff i now = (
  (λ h. ground arith, λ h. ground arith),
  (λ h. ground arith, λ h. ground arith),
  (λ h. ground arith, λ h. ground arith),
)

-- A code with no time to live is born expired.
pub issue-expired :
    (code : JoinCode) (issued_at ttl_secs now : ℤ)
    → IsI64 now
    → ttl_secs ≤ℤ pos 0
    → issued_at ≤ℤ now
    → issued_status (issue code issued_at ttl_secs) now ≡ expired
unfolding issue issued_status status expires_at saturating_add
issue-expired code t l now r h k = ground arith
