-- ===== src/Json/Numbers.antt =====
-- JSON numbers (crates/anago-core/src/json.rs): what is written of an integer reads back.
use anago.Prelude.{
  ℕ, zero, suc, ◌+◌, ◌/◌, ◌%◌, ◌≤◌, ◌<◌, ◌≡◌, refl, ap, true, false, Bool, ◌||◌, not, some, [], ◌∷◌,
  ◌++◌, arith, nat_eq, ◌==◌, ltb, length, ok, Bool-cases, inl, inr,
}
use anago.Prelude.Int.{ℤ, pos, negsuc}
use anago.Prelude.I64.{IsI64}
use anago.Text.{Text, is_digit}
use anago.Text.Decimal.{
  decimal, decimal_small, decimal_large, decimal-AllDigits, value-decimal, AllDigits, value,
}
use anago.Json.{int}
use anago.Json.Write.{int_to_string}
use anago.Json.Read.{digits, has_leading_zero, is_float_mark, in_range, read_digits, read_number}

-- A text that does not go on with a number.
abbrev pub stops : Text → Bool
stops [] = true
stops (c ∷ s) = not (is_digit c || is_float_mark (c ∷ s))

digits-append :
    (ds after : Text) → AllDigits ds → stops after ≡ true → digits (ds ++ after) ≡ (ds, after)
digits-append [] [] h k = refl
digits-append [] (c ∷ s) h k = ground arith
digits-append (d ∷ ds) after h k = ground (arith, digits-append ds after h.1)

-- A number starts with a digit, which is zero only if it is zero.
data Leads (n : ℕ) (t : Text) : Type 0 where
  alone : t ≡ b'0' ∷ [] → Leads n t
  leads : (d : ℕ) (ds : Text) → t ≡ d ∷ ds → b'1' ≤ d → d ≤ b'9' → Leads n t

decimal-Leads : (f n : ℕ) → n < f → Leads n (decimal n)
decimal-Leads zero n h = elim h [ ]
decimal-Leads (suc f) n h = elim (Bool-cases (ltb n 10)) [
  | inl small ↦ elim (Bool-cases (n == 0)) [
    | inl z ↦ alone (ground (arith, decimal_small n))
    | inr nz ↦ leads (n + b'0') [] (decimal_small n (ground arith)) (ground arith) (ground arith)
  ]
  | inr big ↦ elim (decimal-Leads f (n / 10) (ground arith)) [
    | alone e ↦ absurd (ground (arith, value-decimal (n / 10), ap value e))
    | leads d ds e l u ↦
        leads d (ds ++ ((n % 10 + b'0') ∷ [])) (ground (arith, decimal_large n)) l u
  ]
]

-- A numeral, as the parser needs it.
record Numeral (n : ℕ) : Type 0 where
  digit : ℕ
  more : Text
  decimal_eq : decimal n ≡ digit ∷ more
  is_digit_eq : is_digit digit ≡ true
  leading_eq : has_leading_zero (decimal n) ≡ false

decimal-Numeral : (n : ℕ) → Numeral n
decimal-Numeral n = elim (decimal-Leads (suc n) n (omega arith)) [
  | alone e ↦ record {
    digit = b'0';
    more = [];
    decimal_eq = e;
    is_digit_eq = refl;
    leading_eq = rw e refl;
  }
  | leads d ds e l u ↦ record {
    digit = d;
    more = ds;
    decimal_eq = e;
    is_digit_eq = ground arith;
    leading_eq = rw e (ground arith);
  }
]

stops-is_float_mark : (t : Text) → stops t ≡ true → is_float_mark t ≡ false
stops-is_float_mark [] h = refl
stops-is_float_mark (c ∷ s) h = ground arith

read_digits-decimal :
    (negative : Bool) (n : ℕ) (start after : Text) (z : ℤ)
    → in_range negative n ≡ some z
    → stops after ≡ true
    → read_digits negative start (decimal n ++ after) ≡ ok (int z, after)
unfolding read_digits
read_digits-decimal negative n start after z h k =
    let m = decimal-Numeral n in
    let longer : length (decimal n) ≡ suc (length m.more) = ap length m.decimal_eq in
    ground (
      arith,
      digits-append (decimal n) after (decimal-AllDigits n) k,
      m.leading_eq,
      stops-is_float_mark after k,
      value-decimal n,
      longer,
    )

pub read_number-int_to_string :
    (z : ℤ) (after : Text)
    → IsI64 z
    → stops after ≡ true
    → read_number (int_to_string z ++ after) ≡ ok (int z, after)
unfolding read_number int_to_string
read_number-int_to_string (pos n) after h k =
    let m = decimal-Numeral n in
    let e = read_digits-decimal false n (decimal n ++ after) after (pos n) (ground arith) k in
    ground (arith, m.decimal_eq, m.is_digit_eq, e)
read_number-int_to_string (negsuc n) after h k =
    let whole = b'-' ∷ (decimal (suc n) ++ after) in
    read_digits-decimal true (suc n) whole after (negsuc n) (ground arith) k

-- The first character of a number.
pub int_to_string-first :
    (z : ℤ)
    → (c : ℕ) × (t : Text) × (int_to_string z ≡ c ∷ t) × (((c == b'-') || is_digit c) ≡ true)
unfolding int_to_string
int_to_string-first (pos n) =
    let m = decimal-Numeral n in (m.digit, m.more, m.decimal_eq, ground (arith, m.is_digit_eq))
int_to_string-first (negsuc n) = (b'-', decimal (suc n), refl, refl)
