-- ===== src/Ipv4.antt =====
-- `std::net::Ipv4Addr`, as far as the program uses it: octets, equality, `Display` and `FromStr`.
pub mod Canonical
pub mod RoundTrip
pub mod Plain
use anago.Prelude.{
  ℕ, ◌+◌, ◌-◌, ◌*◌, ◌<◌, ◌≡◌, ◌↔◌, Bool, true, false, ◌&&◌, List, [], ◌∷◌, ◌++◌, Option, none, some,
  arith, leb, ltb, ◌==◌, Eq, nat_eq, if◌then◌else◌, length, nat_beq_iff,
}
use anago.Text.{Text, is_digit}
use anago.Text.Decimal.{decimal}

pub record Ipv4Addr : Type 0 where
  pub a : ℕ
  pub b : ℕ
  pub c : ℕ
  pub d : ℕ

-- The four fields are octets.
pub record IsOctets (x : Ipv4Addr) : Type 0 where
  pub a_lt : x.a < 256
  pub b_lt : x.b < 256
  pub c_lt : x.c < 256
  pub d_lt : x.d < 256

abbrev pub addr_beq : Ipv4Addr → Ipv4Addr → Bool
addr_beq x y = (x.a == y.a) && (x.b == y.b) && (x.c == y.c) && (x.d == y.d)

pub addr_beq_iff : (x y : Ipv4Addr) → (addr_beq x y ≡ true) ↔ (x ≡ y)
addr_beq_iff x y = ground arith

instance abbrev pub addr_eq : Eq Ipv4Addr
addr_eq = record { beq = addr_beq; beq_iff = addr_beq_iff }

-- `Display`.
unfoldable pub display : Ipv4Addr → Text
display x = decimal x.a ++ b'.' ∷ (decimal x.b ++ b'.' ∷ (decimal x.c ++ b'.' ∷ decimal x.d))

-- `FromStr` reads an octet digit by digit; it stops at a value past 255 and at a fourth digit.
read_digits : Text → ℕ → ℕ → Option (ℕ × ℕ × Text)
read_digits [] acc count = some (acc, count, [])
read_digits (ch ∷ chs) acc count =
    let acc' = acc * 10 + (ch - b'0') in
    let rest = read_digits chs acc' (count + 1) in
    if is_digit ch
    then (if ltb 255 acc' then none else if leb 3 count then none else rest)
    else some (acc, count, ch ∷ chs)

starts_zero : Text → Bool
starts_zero [] = false
starts_zero (ch ∷ chs) = ch == b'0'

-- No digit at all, and a leading zero before another digit, are no octet.
unfoldable pub read_octet : Text → Option (ℕ × Text)
unfolding read_digits starts_zero
read_octet s = elim (read_digits s 0 0) [
  | none ↦ none
  | some (value, count, rest) ↦
      if count == 0 then none else if starts_zero s && ltb 1 count then none else some (value, rest)
]

read_dot : Text → Option Text
read_dot [] = none
read_dot (ch ∷ chs) = if ch == b'.' then some chs else none

infixl 5 ◌>>=◌
abbrev ◌>>=◌ {ℓ κ} : {A : Type ℓ} {B : Type κ} → Option A → (A → Option B) → Option B
none >>= f = none
some x >>= f = f x

read_end : Ipv4Addr → Text → Option Ipv4Addr
read_end x [] = some x
read_end x (ch ∷ chs) = none

-- A text of more than 15 characters is refused before it is read.
unfoldable pub parse : Text → Option Ipv4Addr
unfolding read_dot read_end
parse s = if ltb 15 (length s) then none else do
  (a, s1) ← read_octet s
  s2 ← read_dot s1
  (b, s3) ← read_octet s2
  s4 ← read_dot s3
  (c, s5) ← read_octet s4
  s6 ← read_dot s5
  (d, s7) ← read_octet s6
  read_end (record { a = a; b = b; c = c; d = d }) s7
