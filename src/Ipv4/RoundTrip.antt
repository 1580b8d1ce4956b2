-- ===== src/Ipv4/RoundTrip.antt =====
-- An address that is written reads back.
use anago.Prelude.{
  ℕ, ◌+◌, ◌/◌, ◌%◌, ◌≤◌, ◌<◌, ◌≡◌, refl, false, [], ◌∷◌, ◌++◌, some, arith, length, length-append,
}
use native.Mathlib.Decide.{dec_lt}
use mathlib.Core.List.{append-nil}
use anago.Text.{Text, is_digit}
use anago.Text.Decimal.{decimal, decimal_small, decimal_large}
use anago.Ipv4.{Ipv4Addr, IsOctets, display, parse, read_octet}

-- The text does not go on with a digit.
abbrev Stops : Text → Type 0
Stops [] = Unit
Stops (c ∷ cs) = is_digit c ≡ false

-- The three lengths that an octet is written at.
decimal_two : (n : ℕ) → 10 ≤ n → n < 100 → decimal n ≡ (n / 10 + b'0') ∷ (n % 10 + b'0') ∷ []
decimal_two n h k = cc (decimal_large n h, decimal_small (n / 10) (omega arith))

decimal_three :
    (n : ℕ)
    → 100 ≤ n
    → n < 1000
    → decimal n ≡ (n / 100 + b'0') ∷ (n / 10 % 10 + b'0') ∷ (n % 10 + b'0') ∷ []
decimal_three n h k =
    ground (arith, decimal_large n (omega arith), decimal_two (n / 10) (omega arith) (omega arith))

read_one :
    (n : ℕ) (rest : Text) → n < 10 → Stops rest → read_octet ((n + b'0') ∷ rest) ≡ some (n, rest)
unfolding read_octet
read_one n [] h s = ground arith
read_one n (c ∷ cs) h s = ground arith

read_two :
    (n : ℕ) (rest : Text)
    → 10 ≤ n
    → n < 100
    → Stops rest
    → read_octet ((n / 10 + b'0') ∷ (n % 10 + b'0') ∷ rest) ≡ some (n, rest)
unfolding read_octet
read_two n [] h k s = ground arith
read_two n (c ∷ cs) h k s = ground arith

read_three :
    (n : ℕ) (rest : Text)
    → 100 ≤ n
    → n < 256
    → Stops rest
    → read_octet ((n / 100 + b'0') ∷ (n / 10 % 10 + b'0') ∷ (n % 10 + b'0') ∷ rest) ≡ some (n, rest)
unfolding read_octet
read_three n [] h k s = ground arith
read_three n (c ∷ cs) h k s = ground arith

read_octet-decimal :
    (n : ℕ) (rest : Text) → n < 256 → Stops rest → read_octet (decimal n ++ rest) ≡ some (n, rest)
read_octet-decimal n rest h s = elim (dec_lt n 10) [
  | yes p ↦ rw (decimal_small n p) (read_one n rest p s)
  | no p ↦ elim (dec_lt n 100) [
    | yes q ↦ rw (decimal_two n (omega arith) q) (read_two n rest (omega arith) q s)
    | no q ↦ rw (decimal_three n (omega arith) (omega arith)) (read_three n rest (omega arith) h s)
  ]
]

length-decimal_le : (n : ℕ) → n < 256 → length (decimal n) ≤ 3
length-decimal_le n h = elim (dec_lt n 10) [
  | yes p ↦ rw (decimal_small n p) (omega arith)
  | no p ↦ elim (dec_lt n 100) [
    | yes q ↦ rw (decimal_two n (omega arith) q) (omega arith)
    | no q ↦ rw (decimal_three n (omega arith) (omega arith)) (omega arith)
  ]
]

pub length-display_le : (x : Ipv4Addr) → IsOctets x → length (display x) ≤ 15
unfolding display
length-display_le x o = omega (
  arith,
  length-append (decimal x.a) (b'.' ∷ (decimal x.b ++ b'.' ∷ (decimal x.c ++ b'.' ∷ decimal x.d))),
  length-append (decimal x.b) (b'.' ∷ (decimal x.c ++ b'.' ∷ decimal x.d)),
  length-append (decimal x.c) (b'.' ∷ decimal x.d),
  length-decimal_le x.a o.a_lt,
  length-decimal_le x.b o.b_lt,
  length-decimal_le x.c o.c_lt,
  length-decimal_le x.d o.d_lt,
)

read_last : (n : ℕ) → n < 256 → read_octet (decimal n) ≡ some (n, [])
read_last n h = rw append-nil at (read_octet-decimal n [] h tt)

pub parse-display : (x : Ipv4Addr) → IsOctets x → parse (display x) ≡ some x
unfolding parse display
parse-display x o = ground (
  arith,
  length-display_le x o,
  read_octet-decimal x.a (b'.' ∷ (decimal x.b ++ b'.' ∷ (decimal x.c ++ b'.' ∷ decimal x.d))) o.a_lt
      refl,
  read_octet-decimal x.b (b'.' ∷ (decimal x.c ++ b'.' ∷ decimal x.d)) o.b_lt refl,
  read_octet-decimal x.c (b'.' ∷ decimal x.d) o.c_lt refl,
  read_last x.d o.d_lt,
)
