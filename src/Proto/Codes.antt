-- ===== src/Proto/Codes.antt =====
-- The wire spelling of error codes (crates/anago-core/src/proto.rs).
use anago.Prelude.{
  ◌≡◌, refl, sym, ap, subst, ◌∙◌, ◌↔◌, Option, some, ◌==◌, list_eq, list_beq_iff, nat_eq,
  if◌then◌else◌, arith, Bool-cases, inl, inr,
}
use anago.Text.{Text, lit}
use anago.Proto.{
  ErrorCode, invalid_code, invalid_name, name_taken, invalid_public_key, subnet_full, unauthorized,
  not_found, bad_request, internal, as_str, from_wire,
}

pub from_wire-as_str : (c : ErrorCode) → from_wire (as_str c) ≡ some c
unfolding from_wire as_str
from_wire-as_str invalid_code = refl
from_wire-as_str invalid_name = refl
from_wire-as_str name_taken = refl
from_wire-as_str invalid_public_key = refl
from_wire-as_str subnet_full = refl
from_wire-as_str unauthorized = refl
from_wire-as_str not_found = refl
from_wire-as_str bad_request = refl
from_wire-as_str internal = refl

-- One arm of the `match`.
arm :
    (s t : Text) (a c : ErrorCode) (rest : Option ErrorCode)
    → t ≡ as_str a
    → (rest ≡ some c → s ≡ as_str c)
    → (if s == t then some a else rest) ≡ some c
    → s ≡ as_str c
arm s t a c rest spelt k h = elim (Bool-cases (s == t)) [
  | inl here ↦
      let same : a ≡ c = ground (arith, rw here at h) in
      (list_beq_iff s t).0 here ∙ spelt ∙ ap as_str same
  | inr other ↦ k (rw other at h)
]

from_wire-eq-some : (s : Text) (c : ErrorCode) → from_wire s ≡ some c → s ≡ as_str c
unfolding from_wire as_str
from_wire-eq-some s c = arm s (lit "invalid_code") invalid_code c _ refl (
    arm s (lit "invalid_name") invalid_name c _ refl (
      arm s (lit "name_taken") name_taken c _ refl (
        arm s (lit "invalid_public_key") invalid_public_key c _ refl (
          arm s (lit "subnet_full") subnet_full c _ refl (
            arm s (lit "unauthorized") unauthorized c _ refl (
              arm s (lit "not_found") not_found c _ refl (
                arm s (lit "bad_request") bad_request c _ refl
                  (arm s (lit "internal") internal c _ refl (λ h. absurd (ground arith))))))))))

-- A wire text is read as an error code exactly if it is the spelling of that code, so no two codes
-- share a spelling and an unknown text is none of them.
pub from_wire-as_str_iff : (s : Text) (c : ErrorCode) → (from_wire s ≡ some c) ↔ (s ≡ as_str c)
from_wire-as_str_iff s c =
    (from_wire-eq-some s c, λ h. subst (λ t. from_wire t ≡ some c) (sym h) (from_wire-as_str c))
