-- ===== src/Prelude/I64.antt =====
-- `i64`: integers with their range, and the operations of Rust that stop at its ends.
use Prim.Native.Nat.{ℕ, ◌+◌, ◌/◌, ◌≤◌, ◌<◌}
use mathlib.Core.Path.{◌≡◌}
use mathlib.Core.Bool.{Bool, not}
use native.Mathlib.Omega.{arith}
use anago.Prelude.Tests.{ltb, if◌then◌else◌}
use anago.Prelude.Int.{ℤ, pos, negsuc, pos_part, neg_part, sub_ℕ, ◌+ℤ◌, ◌-ℤ◌, ◌*ℤ◌, ltb_ℤ}

-- i64::MAX is 2^63 - 1 and i64::MIN is -2^63, which `negsuc` also writes as `bound`.
abbrev pub bound : ℕ
bound = 0x7fff_ffff_ffff_ffff

abbrev pub i64_max : ℤ
i64_max = pos bound

abbrev pub i64_min : ℤ
i64_min = negsuc bound

abbrev pub IsI64 : ℤ → Type 0
IsI64 a = (pos_part a ≤ bound) × (neg_part a ≤ bound + 1)

-- `a < b`, as a statement.
infix 50 ◌<ℤ◌
abbrev pub ◌<ℤ◌ : ℤ → ℤ → Type 0
a <ℤ b = pos_part a + neg_part b < pos_part b + neg_part a

-- `a >= b`, as a test.
abbrev pub geb_ℤ : ℤ → ℤ → Bool
geb_ℤ a b = not (ltb_ℤ a b)

abbrev pub clamp : ℤ → ℤ
clamp (pos n) = if ltb bound n then pos bound else pos n
clamp (negsuc n) = if ltb bound n then negsuc bound else negsuc n

unfoldable pub saturating_add : ℤ → ℤ → ℤ
unfolding ◌+ℤ◌
saturating_add a b = clamp (a +ℤ b)

unfoldable pub saturating_sub : ℤ → ℤ → ℤ
unfolding ◌-ℤ◌
saturating_sub a b = clamp (a -ℤ b)

unfoldable pub saturating_mul : ℤ → ℤ → ℤ
unfolding ◌*ℤ◌
saturating_mul a b = clamp (a *ℤ b)

-- `a / n` for a positive `n`, which rounds towards zero.
unfoldable pub div_trunc : ℤ → ℕ → ℤ
div_trunc a n = sub_ℕ (pos_part a / n) (neg_part a / n)

-- `i64::min` and `i64::max`.
unfoldable pub min_ℤ : ℤ → ℤ → ℤ
min_ℤ a b = if ltb_ℤ b a then b else a

unfoldable pub max_ℤ : ℤ → ℤ → ℤ
max_ℤ a b = if ltb_ℤ a b then b else a

-- The sum is exact inside the range.
pub saturating_add-IsI64 : (a b : ℤ) → IsI64 (saturating_add a b)
unfolding saturating_add
saturating_add-IsI64 a b = ground arith

pub saturating_add_exact : (a b : ℤ) → IsI64 (a +ℤ b) → saturating_add a b ≡ a +ℤ b
unfolding saturating_add
saturating_add_exact a b h = ground arith
