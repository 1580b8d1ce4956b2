-- ===== src/Text/Decimal.antt =====
-- Decimal numerals: what `to_string` writes of a natural number and `parse` reads back.
use anago.Prelude.{
  ℕ, zero, suc, ◌+◌, ◌-◌, ◌*◌, ◌/◌, ◌%◌, ◌≤◌, ◌<◌, ◌≡◌, refl, true, false, [], ◌∷◌, ◌++◌, arith,
  ltb, tests, Bool-cases, inl, inr, all, All,
}
use anago.Text.{Text, is_digit}

abbrev pub AllDigits : Text → Type 0
AllDigits = All (λ c. (b'0' ≤ c) × (c ≤ b'9'))

-- The value of a run of digits, `acc` being that of the digits before it.
abbrev pub value_from : ℕ → Text → ℕ
value_from acc [] = acc
value_from acc (c ∷ cs) = value_from (acc * 10 + (c - b'0')) cs

abbrev pub value : Text → ℕ
value = value_from 0

decimal_loop : ℕ → ℕ → Text
decimal_loop zero n = []
decimal_loop (suc f) n = elim (ltb n 10) [
  | true ↦ (n + b'0') ∷ []
  | false ↦ decimal_loop f (n / 10) ++ ((n % 10 + b'0') ∷ [])
]

-- A number has no more than itself and one digits.
unfoldable pub decimal : ℕ → Text
unfolding decimal_loop
decimal n = decimal_loop (suc n) n

pub value_from-append :
    (acc : ℕ) (xs ys : Text) → value_from acc (xs ++ ys) ≡ value_from (value_from acc xs) ys
value_from-append acc [] ys = refl
value_from-append acc (x ∷ xs) ys = value_from-append (acc * 10 + (x - b'0')) xs ys

AllDigits-append : (xs ys : Text) → AllDigits xs → AllDigits ys → AllDigits (xs ++ ys)
AllDigits-append [] ys h k = k
AllDigits-append (x ∷ xs) ys h k = (h.0, AllDigits-append xs ys h.1 k)

value-decimal_loop : (f n : ℕ) → n < f → value (decimal_loop f n) ≡ n
unfolding decimal_loop
value-decimal_loop zero n h = elim h [ ]
value-decimal_loop (suc f) n h = ground (
  arith,
  value-decimal_loop f (n / 10),
  value_from-append 0 (decimal_loop f (n / 10)) ((n % 10 + b'0') ∷ []),
)

-- What is written reads back as the number.
pub value-decimal : (n : ℕ) → value (decimal n) ≡ n
unfolding decimal
value-decimal n = value-decimal_loop (suc n) n (omega arith)

decimal_loop-AllDigits : (f n : ℕ) → AllDigits (decimal_loop f n)
unfolding decimal_loop
decimal_loop-AllDigits zero n = tt
decimal_loop-AllDigits (suc f) n = elim (Bool-cases (ltb n 10)) [
  | inl small ↦ rw (small, decimal_loop) (omega tests)
  | inr big ↦
      rw (big, decimal_loop)
        (AllDigits-append (decimal_loop f (n / 10)) ((n % 10 + b'0') ∷ [])
          (decimal_loop-AllDigits f (n / 10)) (omega arith))
]

pub decimal-AllDigits : (n : ℕ) → AllDigits (decimal n)
unfolding decimal
decimal-AllDigits n = decimal_loop-AllDigits (suc n) n

decimal_loop_fuel : (f g n : ℕ) → n < f → n < g → decimal_loop f n ≡ decimal_loop g n
unfolding decimal_loop
decimal_loop_fuel zero g n h k = elim h [ ]
decimal_loop_fuel (suc f) zero n h k = elim k [ ]
decimal_loop_fuel (suc f) (suc g) n h k = ground (arith, decimal_loop_fuel f g (n / 10))

-- One digit, or the digits of the tenth part and the last one.
pub decimal_small : (n : ℕ) → n < 10 → decimal n ≡ (n + b'0') ∷ []
unfolding decimal
decimal_small n h = ground arith

pub decimal_large : (n : ℕ) → 10 ≤ n → decimal n ≡ decimal (n / 10) ++ ((n % 10 + b'0') ∷ [])
unfolding decimal
decimal_large n h = ground (arith, decimal_loop_fuel n (suc (n / 10)) (n / 10))

pub value_from-le : (acc : ℕ) (s : Text) → acc ≤ value_from acc s
value_from-le acc [] = omega arith
value_from-le acc (c ∷ cs) = omega (arith, value_from-le (acc * 10 + (c - b'0')) cs)

pub all-is_digit : (s : Text) → all is_digit s ≡ true → AllDigits s
all-is_digit [] h = tt
all-is_digit (c ∷ cs) h = (ground arith, all-is_digit cs (ground arith))
