-- ===== src/Ipv4/Canonical.antt =====
-- An address has one spelling: what reads as an address is what the address is written as.
use anago.Prelude.{
  ℕ, ◌+◌, ◌-◌, ◌*◌, ◌≤◌, ◌<◌, ◌≡◌, refl, ap, ◌∙◌, false, [], ◌∷◌, ◌++◌, Option, none, some, arith,
  length, inl, inr, ltb, nat_eq, Bool-cases, Option-cases, ◌&&◌,
}
use mathlib.Core.List.{append-nil}
use anago.Text.{Text, is_digit}
use anago.Text.Decimal.{decimal, AllDigits, value, value_from, decimal_small, decimal_large}
use anago.Ipv4.{
  Ipv4Addr, IsOctets, display, parse, read_octet, read_digits, starts_zero, read_dot, read_end,
  ◌>>=◌,
}

-- The digits in front of a text, with what `read_digits` returns for them.
record Run (s : Text) (acc count v k : ℕ) (rest : Text) : Type 0 where
  digits : Text
  split : s ≡ digits ++ rest
  all_digits : AllDigits digits
  value_eq : v ≡ value_from acc digits
  count_eq : k ≡ count + length digits
  few : k ≤ 3
  small : v ≤ 255

read_digits-Run :
    (s : Text) (acc count : ℕ) {v k : ℕ} {rest : Text}
    → acc ≤ 255
    → count ≤ 3
    → read_digits s acc count ≡ some (v, k, rest)
    → Run s acc count v k rest
unfolding read_digits
read_digits-Run [] acc count h c e = record {
  digits = [];
  split = ground arith;
  all_digits = tt;
  value_eq = ground arith;
  count_eq = ground arith;
  few = ground arith;
  small = ground arith;
}
read_digits-Run (ch ∷ chs) acc count {v} {k} {rest} h c e = elim (Bool-cases (is_digit ch)) [
  | inl digit ↦
      let acc' : ℕ = acc * 10 + (ch - b'0') in
      let small : acc' ≤ 255 = ground arith in
      let more : count + 1 ≤ 3 = ground arith in
      let e' : read_digits chs acc' (count + 1) ≡ some (v, k, rest) = ground arith in
      let r = read_digits-Run chs acc' (count + 1) small more e' in
      record {
        digits = ch ∷ r.digits;
        split = ap (◌∷◌ ch) r.split;
        all_digits = (ground arith, r.all_digits);
        value_eq = r.value_eq;
        count_eq = omega (arith, r.count_eq);
        few = r.few;
        small = r.small;
      }
  | inr other ↦ record {
    digits = [];
    split = ground arith;
    all_digits = tt;
    value_eq = ground arith;
    count_eq = ground arith;
    few = ground arith;
    small = ground arith;
  }
]

-- One to three digits with no needless zero in front are how their value is written.
decimal-value :
    (ds : Text)
    → AllDigits ds
    → 1 ≤ length ds
    → length ds ≤ 3
    → (starts_zero ds && ltb 1 (length ds)) ≡ false
    → decimal (value ds) ≡ ds
unfolding starts_zero
decimal-value [] d p q z = absurd (omega arith)
decimal-value (x ∷ []) d p q z = ground (arith, decimal_small (x - b'0') (omega arith))
decimal-value (x ∷ y ∷ []) d p q z = ground (
  arith,
  decimal_large ((x - b'0') * 10 + (y - b'0')) (ground arith),
  decimal_small (x - b'0') (omega arith),
)
decimal-value (x ∷ y ∷ w ∷ []) d p q z = ground (
  arith,
  decimal_large (((x - b'0') * 10 + (y - b'0')) * 10 + (w - b'0')) (ground arith),
  decimal_large ((x - b'0') * 10 + (y - b'0')) (ground arith),
  decimal_small (x - b'0') (omega arith),
)
decimal-value (x ∷ y ∷ w ∷ u ∷ rest) d p q z = absurd (omega arith)

starts_zero-append : (ds rest : Text) → 1 ≤ length ds → starts_zero (ds ++ rest) ≡ starts_zero ds
unfolding starts_zero
starts_zero-append [] rest h = absurd (omega arith)
starts_zero-append (x ∷ xs) rest h = refl

read_octet-parts :
    (s : Text) {n : ℕ} {rest : Text}
    → read_octet s ≡ some (n, rest)
    → (k : ℕ) × (read_digits s 0 0 ≡ some (n, k, rest))
      × (1 ≤ k)
      × ((starts_zero s && ltb 1 k) ≡ false)
unfolding read_octet
read_octet-parts s h = elim (Option-cases (read_digits s 0 0)) [
  | inl e ↦ absurd (ground arith)
  | inr ((v, k, rest'), e) ↦ (k, ground arith, ground arith, ground arith)
]

read_octet-eq-some :
    (s : Text) {n : ℕ} {rest : Text}
    → read_octet s ≡ some (n, rest)
    → (s ≡ decimal n ++ rest) × (n < 256)
read_octet-eq-some s {n} {rest} h =
    let (k, e, pos, canonical) = read_octet-parts s h in
    let r = read_digits-Run s 0 0 (omega arith) (omega arith) e in
    let some_digit : 1 ≤ length r.digits = omega (arith, pos, r.count_eq) in
    let zero_first : (starts_zero r.digits && ltb 1 (length r.digits)) ≡ false = ground (
      arith,
      canonical,
      ap starts_zero r.split ∙ starts_zero-append r.digits rest some_digit,
      r.count_eq,
    ) in
    let written : decimal (value r.digits) ≡ r.digits =
      decimal-value r.digits r.all_digits some_digit (omega (arith, r.few, r.count_eq))
        zero_first in
    (cc (r.split, written, r.value_eq), omega (arith, r.small))

read_dot-eq-some : (s : Text) {rest : Text} → read_dot s ≡ some rest → s ≡ b'.' ∷ rest
unfolding read_dot
read_dot-eq-some [] h = ground arith
read_dot-eq-some (c ∷ cs) h = ground arith

read_end-eq-some :
    (x : Ipv4Addr) (s : Text) {y : Ipv4Addr} → read_end x s ≡ some y → (x ≡ y) × (s ≡ [])
unfolding read_end
read_end-eq-some x [] h = ground arith
read_end-eq-some x (c ∷ cs) h = ground arith

>>=-eq-some {ℓ κ} :
    {A : Type ℓ} {B : Type κ} (m : Option A) (f : A → Option B) {b : B}
    → (m >>= f) ≡ some b
    → (a : A) × (m ≡ some a) × (f a ≡ some b)
>>=-eq-some none f h = ground arith
>>=-eq-some (some a) f h = (a, refl, h)

-- An octet and a dot, read in front of what `f` reads.
octet_dot :
    (s : Text) (f : ℕ → Text → Option Ipv4Addr) {x : Ipv4Addr}
    → (do (v, s1) ← read_octet s; s2 ← read_dot s1; f v s2) ≡ some x
    → (v : ℕ) × (s2 : Text) × (s ≡ decimal v ++ b'.' ∷ s2) × (v < 256) × (f v s2 ≡ some x)
octet_dot s f h =
    let ((v, s1), e, h1) = >>=-eq-some (read_octet s) _ h in
    let (s2, dot, h2) = >>=-eq-some (read_dot s1) _ h1 in
    let (spelt, small) = read_octet-eq-some s e in
    (v, s2, spelt ∙ ap (◌++◌ (decimal v)) (read_dot-eq-some s1 dot), small, h2)

octet_end :
    (s : Text) (f : ℕ → Ipv4Addr) {x : Ipv4Addr}
    → (do (v, s1) ← read_octet s; read_end (f v) s1) ≡ some x
    → (v : ℕ) × (s ≡ decimal v) × (v < 256) × (f v ≡ x)
octet_end s f h =
    let ((v, s1), e, h1) = >>=-eq-some (read_octet s) _ h in
    let (spelt, small) = read_octet-eq-some s e in
    let (result, ended) = read_end-eq-some (f v) s1 h1 in
    (v, spelt ∙ ap (◌++◌ (decimal v)) ended ∙ append-nil (decimal v), small, result)

-- What stands behind the length test of `parse`.
read_all : Text → Option Ipv4Addr
read_all s = do
  (a, s1) ← read_octet s
  s2 ← read_dot s1
  (b, s3) ← read_octet s2
  s4 ← read_dot s3
  (c, s5) ← read_octet s4
  s6 ← read_dot s5
  (d, s7) ← read_octet s6
  read_end (record { a = a; b = b; c = c; d = d }) s7

read_all-eq-some : (s : Text) {x : Ipv4Addr} → read_all s ≡ some x → (s ≡ display x) × IsOctets x
unfolding read_all display
read_all-eq-some s h =
    let (a, s2, ea, la, h1) = octet_dot s _ h in
    let (b, s4, eb, lb, h2) = octet_dot s2 _ h1 in
    let (c, s6, ec, lc, h3) = octet_dot s4 _ h2 in
    let (d, ed, ld, result) = octet_end s6 (λ v. record { a = a; b = b; c = c; d = v }) h3 in
    rw (← result) (
      ea
          ∙ ap (λ t. decimal a ++ b'.' ∷ t)
              (eb ∙ ap (λ t. decimal b ++ b'.' ∷ t) (ec ∙ ap (λ t. decimal c ++ b'.' ∷ t) ed)),
      record { a_lt = la; b_lt = lb; c_lt = lc; d_lt = ld },
    )

-- What reads as an address has four octets and is what the address is written as.
pub parse-eq-some : (s : Text) {x : Ipv4Addr} → parse s ≡ some x → (s ≡ display x) × IsOctets x
unfolding parse read_all
parse-eq-some s h = elim (Bool-cases (ltb 15 (length s))) [
  | inl long ↦ ground arith
  | inr short ↦ read_all-eq-some s (rw short at h)
]
