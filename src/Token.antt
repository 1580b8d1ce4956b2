-- ===== src/Token.antt =====
-- crates/anago-core/src/token.rs: device tokens and their hashes.
pub mod Hex
pub mod Compare
mod Tests
use anago.Prelude.{
  ℕ, zero, suc, ◌+◌, ◌*◌, ◌/◌, ◌%◌, ◌≡◌, ◌↔◌, Bool, true, false, ◌&&◌, ◌||◌, not, List, [], ◌∷◌,
  ◌++◌, Option, none, some, arith, ◌==◌, nat_eq, list_beq_iff, if◌then◌else◌, leb, length, find,
  get_elem?, Result, ok, err, map_err, ◌>>=◌, bit_or, bit_xor, bit_and,
}
use anago.Text.{Text, lit, is_digit}

abbrev pub token_bytes : ℕ
token_bytes = 32

abbrev pub hex_len : ℕ
hex_len = token_bytes * 2

abbrev pub hex_digits : Text
hex_digits = lit "0123456789abcdef"

pub record DeviceToken : Type 0 where
  pub text : Text

pub record TokenHash : Type 0 where
  pub hex : Text

pub data TokenError : Type 0 where
  wrong_length : ℕ → TokenError
  bad_char : ℕ → TokenError

-- `matches!(c, '0'..='9' | 'a'..='f')`
abbrev pub is_hex_digit : ℕ → Bool
is_hex_digit c = is_digit c || (leb b'a' c && leb c b'f')

unfoldable pub check_hex : Text → Result TokenError Text
check_hex input =
    if length input == hex_len
    then (elim (find (λ c. not (is_hex_digit c)) input) [
      | some c ↦ err (bad_char c)
      | none ↦ ok input
    ])
    else err (wrong_length (length input))

-- `HEX_DIGITS[i]`, for an index below 16.
unfoldable pub hex_digit : ℕ → ℕ
hex_digit i = elim (get_elem? hex_digits i) [ none ↦ 0 | some c ↦ c ]

-- `byte >> 4` and `byte & 0x0f` pick the two digits of a byte.
unfoldable pub to_hex : List ℕ → Text
to_hex [] = []
to_hex (byte ∷ bytes) = hex_digit (byte / 16) ∷ hex_digit (bit_and byte 0x0f) ∷ to_hex bytes

-- `DeviceToken::parse` and `DeviceToken::from_bytes`.
unfoldable pub parse_token : Text → Result TokenError DeviceToken
parse_token input = do hex ← check_hex input; ok (record { text = hex })

unfoldable pub token_from_bytes : List ℕ → DeviceToken
token_from_bytes bytes = record { text = to_hex bytes }

-- `TokenHash::parse` and `TokenHash::from_bytes`.
unfoldable pub parse_hash : Text → Result TokenError TokenHash
parse_hash input = do hex ← check_hex input; ok (record { hex = hex })

unfoldable pub hash_from_bytes : List ℕ → TokenHash
hash_from_bytes bytes = record { hex = to_hex bytes }

-- The loop of `constant_time_eq` over the bytes of both sides.
unfoldable pub diff_loop : ℕ → List ℕ → List ℕ → ℕ
diff_loop diff [] bs = diff
diff_loop diff (x ∷ xs) [] = diff
diff_loop diff (x ∷ xs) (y ∷ ys) = diff_loop (bit_or diff (bit_xor x y)) xs ys

unfoldable pub constant_time_eq : List ℕ → List ℕ → Bool
constant_time_eq a b = if length a == length b then diff_loop 0 a b == 0 else false

-- `TokenHash::matches`; a hash is ASCII, so its characters are its bytes.
unfoldable pub matches : TokenHash → TokenHash → Bool
matches h k = constant_time_eq h.hex k.hex
