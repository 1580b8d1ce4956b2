-- ===== src/Token/Tests.antt =====
-- Runs of crates/anago-core/src/token.rs.
use anago.Prelude.{ℕ, ◌≡◌, refl, ◌↔◌, [], ◌∷◌, ◌++◌, List, true, false, err}
use anago.Text.{lit}
use anago.Token.{
  DeviceToken, parse_token, check_hex, token_from_bytes, hash_from_bytes, to_hex, hex_digit,
  constant_time_eq, diff_loop, matches, wrong_length,
}
use anago.Token.Compare.{matches_iff}

abbrev eight : List ℕ
eight = 0 ∷ 255 ∷ 16 ∷ 171 ∷ 205 ∷ 1 ∷ 2 ∷ 3 ∷ []

abbrev bytes : List ℕ
bytes = eight ++ (eight ++ (eight ++ eight))

abbrev token : DeviceToken
token = record { text = lit "00ff10abcd01020300ff10abcd01020300ff10abcd01020300ff10abcd010203" }

token_from_bytes_run : token_from_bytes bytes ≡ token
unfolding token_from_bytes to_hex hex_digit
token_from_bytes_run = refl

parse_upper : parse_token (lit "00FF") ≡ err (wrong_length 4)
unfolding parse_token check_hex
parse_upper = refl

constant_time_eq_run : constant_time_eq (1 ∷ 2 ∷ []) (1 ∷ 3 ∷ []) ≡ false
unfolding constant_time_eq diff_loop
constant_time_eq_run = refl

matches_iff_example :
    (matches (hash_from_bytes bytes) (hash_from_bytes bytes) ≡ true)
    ↔ (hash_from_bytes bytes ≡ hash_from_bytes bytes)
matches_iff_example = matches_iff (hash_from_bytes bytes) (hash_from_bytes bytes)
