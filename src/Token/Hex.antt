-- ===== src/Token/Hex.antt =====
-- The hexadecimal form of tokens and hashes (crates/anago-core/src/token.rs).
use anago.Prelude.{
  ℕ, ◌+◌, ◌*◌, ◌/◌, ◌%◌, ◌≡◌, ◌<◌, refl, ◌↔◌, true, not, List, [], ◌∷◌, arith, nat_eq, nat_beq_iff,
  nat_beq, if◌then◌else◌, ltb, length, find, find-not_iff, Result-cases, All, all, ok, Option-cases,
  inl, inr,
}
use anago.Prelude.Bits.{below, below_sound, bit_and_low_nibble}
use anago.Text.{Text}
use anago.Token.{
  DeviceToken, check_hex, to_hex, hex_digit, is_hex_digit, parse_token, parse_hash,
  token_from_bytes, hash_from_bytes, token_bytes,
}

-- Numbers that are bytes.
abbrev pub AllBytes : List ℕ → Type 0
AllBytes = All (λ b. b < 256)

hex_digit_table : below 16 (λ i. nat_beq (hex_digit i) (if ltb i 10 then i + 48 else i + 87)) ≡ true
unfolding below hex_digit
hex_digit_table = refl

hex_digit_lem : (i : ℕ) → i < 16 → hex_digit i ≡ (if ltb i 10 then i + 48 else i + 87)
hex_digit_lem i h = (nat_beq_iff _ _).0 (below_sound 16 _ i hex_digit_table h)

hex_digit-is_hex_digit : (i : ℕ) → i < 16 → is_hex_digit (hex_digit i) ≡ true
hex_digit-is_hex_digit i h = ground (arith, hex_digit_lem i h)

hex_digit-injective : (i j : ℕ) → i < 16 → j < 16 → hex_digit i ≡ hex_digit j → i ≡ j
hex_digit-injective i j h k e = ground (arith, hex_digit_lem i h, hex_digit_lem j k)

length-to_hex : (bytes : List ℕ) → length (to_hex bytes) ≡ length bytes * 2
unfolding to_hex
length-to_hex [] = refl
length-to_hex (b ∷ bs) = omega (arith, length-to_hex bs)

to_hex-is_hex_digit : (bytes : List ℕ) → AllBytes bytes → all is_hex_digit (to_hex bytes) ≡ true
unfolding to_hex
to_hex-is_hex_digit [] h = refl
to_hex-is_hex_digit (b ∷ bs) h = ground (
  arith,
  bit_and_low_nibble b h.0,
  hex_digit-is_hex_digit (b / 16) (omega arith),
  hex_digit-is_hex_digit (b % 16) (omega arith),
  to_hex-is_hex_digit bs h.1,
)

-- Different bytes are written differently.
pub to_hex-injective : (a b : List ℕ) → AllBytes a → AllBytes b → to_hex a ≡ to_hex b → a ≡ b
unfolding to_hex
to_hex-injective [] [] h k e = refl
to_hex-injective [] (y ∷ ys) h k e = cc
to_hex-injective (x ∷ xs) [] h k e = cc
to_hex-injective (x ∷ xs) (y ∷ ys) h k e =
    let high : x / 16 ≡ y / 16 =
      hex_digit-injective (x / 16) (y / 16) (omega arith) (omega arith) (ground arith) in
    let low : x % 16 ≡ y % 16 =
      hex_digit-injective (x % 16) (y % 16) (omega arith) (omega arith)
        (ground (arith, bit_and_low_nibble x h.0, bit_and_low_nibble y k.0)) in
    let first : x ≡ y = omega (arith, high, low) in
    let rest : xs ≡ ys = to_hex-injective xs ys h.1 k.1 (ground arith) in cc

check_hex-eq-ok :
    (s : Text) {t : Text}
    → check_hex s ≡ ok t
    → (t ≡ s) × (length s ≡ 64) × (all is_hex_digit s ≡ true)
unfolding check_hex
check_hex-eq-ok s h = elim (Option-cases (find (λ c. not (is_hex_digit c)) s)) [
  | inl e ↦ let hex = (find-not_iff is_hex_digit s).0 e in ground (arith, hex)
  | inr (c, e) ↦ absurd (ground arith)
]

check_hex_ok : (s : Text) → length s ≡ 64 → all is_hex_digit s ≡ true → check_hex s ≡ ok s
unfolding check_hex
check_hex_ok s n h = ground (arith, (find-not_iff is_hex_digit s).1 h)

-- A token is accepted exactly if it is 64 lower-case hexadecimal digits, and is kept as it is; the
-- same goes for a hash.
pub parse_token-eq-ok_iff :
    (s : Text) (t : DeviceToken)
    → (parse_token s ≡ ok t)
      ↔ ((t ≡ record { text = s }) × (length s ≡ 64) × (all is_hex_digit s ≡ true))
unfolding parse_token
parse_token-eq-ok_iff s t = (
  λ h. elim (Result-cases (check_hex s)) [
    | inl (x, e) ↦ let checked = check_hex-eq-ok s e in ground (arith, checked)
    | inr (x, e) ↦ absurd (ground arith)
  ],
  λ h. ground (arith, check_hex_ok s h.1 h.2, h.0),
)

-- The token made of 32 bytes is well-formed, and so is the hash: each is read back as it is.
pub parse_token-from_bytes :
    (bytes : List ℕ)
    → AllBytes bytes
    → length bytes ≡ token_bytes
    → (parse_token (token_from_bytes bytes).text ≡ ok (token_from_bytes bytes))
      × (parse_hash (hash_from_bytes bytes).hex ≡ ok (hash_from_bytes bytes))
unfolding parse_token token_from_bytes parse_hash hash_from_bytes
parse_token-from_bytes bytes h n =
    let checked =
      check_hex_ok (to_hex bytes) (omega (arith, length-to_hex bytes, n))
        (to_hex-is_hex_digit bytes h) in
    ground (arith, checked)
