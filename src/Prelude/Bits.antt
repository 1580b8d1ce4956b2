-- ===== src/Prelude/Bits.antt =====
-- Facts about the bit operations: by table over a small range, by their digits in general.
use Prim.Native.Nat.{
  ℕ, zero, suc, ◌/◌, ◌%◌, ◌≤◌, ◌<◌, max, bit_and, bit_or, bit_xor, digits, differ, bit_or-bitwise,
  bit_xor-bitwise,
}
use mathlib.Core.Path.{◌≡◌, refl, sym, ◌∙◌}
use mathlib.Core.Bool.{Bool, true, ◌&&◌}
use native.Mathlib.Omega.{arith}
use anago.Prelude.Tests.{nat_beq, nat_beq_iff}

-- A test at every number below the bound.
unfoldable pub below : ℕ → (ℕ → Bool) → Bool
below zero p = true
below (suc n) p = p n && below n p

pub below_sound : (n : ℕ) (p : ℕ → Bool) (x : ℕ) → below n p ≡ true → x < n → p x ≡ true
unfolding below
below_sound zero p x h lt = absurd (omega arith)
below_sound (suc n) p x h lt = ground (arith, below_sound n p x)

low_nibble_table : below 256 (λ x. nat_beq (bit_and x 0x0f) (x % 16)) ≡ true
unfolding below
low_nibble_table = refl

-- `x & 0x0f` of a byte.
pub bit_and_low_nibble : (x : ℕ) → x < 256 → bit_and x 0x0f ≡ x % 16
bit_and_low_nibble x h = (nat_beq_iff _ _).0 (below_sound 256 _ x low_nibble_table h)

or_digits : (n a b : ℕ) → a ≤ n → digits (λ c. c) max n a b ≡ 0 → (a ≡ 0) × (b ≡ 0)
or_digits zero zero b h e = (refl, e)
or_digits zero (suc a) b h e = absurd (omega arith)
or_digits (suc n) zero b h e = (refl, e)
or_digits (suc n) (suc a) b h e =
    absurd (omega (arith, or_digits n (suc a / 2) (b / 2) (omega arith) (omega arith)))

differ-eq-zero : (x y : ℕ) → differ x y ≡ 0 → x ≡ y
differ-eq-zero zero y h = sym h
differ-eq-zero (suc x) zero h = h
differ-eq-zero (suc x) (suc y) h = omega (arith, differ-eq-zero x y h)

differ_self : (x : ℕ) → differ x x ≡ 0
differ_self zero = refl
differ_self (suc x) = differ_self x

xor_digits : (n a b : ℕ) → a ≤ n → digits (λ c. c) differ n a b ≡ 0 → a ≡ b
xor_digits zero zero b h e = sym e
xor_digits zero (suc a) b h e = absurd (omega arith)
xor_digits (suc n) zero b h e = sym e
xor_digits (suc n) (suc a) b h e =
    let halves : suc a / 2 ≡ b / 2 = xor_digits n (suc a / 2) (b / 2) (omega arith) (omega arith) in
    let lows : suc a % 2 ≡ b % 2 = differ-eq-zero (suc a % 2) (b % 2) (omega arith) in omega arith

-- An `or` is zero if both sides are, an exclusive `or` if the sides are the same.
pub bit_or-eq-zero : (a b : ℕ) → bit_or a b ≡ 0 → (a ≡ 0) × (b ≡ 0)
bit_or-eq-zero a b h = or_digits a a b (omega arith) (sym (bit_or-bitwise a b) ∙ h)

pub bit_xor-eq-zero : (a b : ℕ) → bit_xor a b ≡ 0 → a ≡ b
bit_xor-eq-zero a b h = xor_digits a a b (omega arith) (sym (bit_xor-bitwise a b) ∙ h)

xor_digits_self : (n a : ℕ) → a ≤ n → digits (λ c. c) differ n a a ≡ 0
xor_digits_self zero zero h = refl
xor_digits_self zero (suc a) h = absurd (omega arith)
xor_digits_self (suc n) zero h = refl
xor_digits_self (suc n) (suc a) h =
    omega (arith, xor_digits_self n (suc a / 2) (omega arith), differ_self (suc a % 2))

pub bit_xor_self : (a : ℕ) → bit_xor a a ≡ 0
bit_xor_self a = bit_xor-bitwise a a ∙ xor_digits_self a a (omega arith)
