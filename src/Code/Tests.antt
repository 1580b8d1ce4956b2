-- ===== src/Code/Tests.antt =====
-- Runs of crates/anago-core/src/code.rs.
use anago.Prelude.{◌≡◌, refl, ◌↔◌, ℕ, true, [], ◌∷◌, List, some, arith, length, ok, err, all}
use anago.Prelude.Int.{pos, negsuc}
use anago.Text.{Text, lit}
use anago.Code.{
  JoinCode, parse, parse_loop, in_alphabet, is_separator, format, from_indices, pick, bad_char,
  wrong_length, issue, issued_status, expired,
}
use anago.Code.Shape.{significant, parse-significant_iff}
use anago.Code.Canonical.{from_indices_total}
use anago.Code.Lifetime.{issue-expired}

abbrev typed : Text
typed = lit " 7qx4 m2-kd"

abbrev seven : JoinCode
seven = record { text = lit "7QX4-M2KD" }

parse-typed : parse typed ≡ ok seven
unfolding parse parse_loop in_alphabet is_separator format
parse-typed = refl

parse_zero : parse (lit "7QX4-M2K0") ≡ err (bad_char b'0')
unfolding parse parse_loop in_alphabet is_separator
parse_zero = refl

parse_short : parse (lit "7QX4") ≡ err (wrong_length 4)
unfolding parse parse_loop in_alphabet is_separator
parse_short = refl

parse_long : parse (lit "7QX4-M2KD-7QX4") ≡ err (wrong_length 9)
unfolding parse parse_loop in_alphabet is_separator
parse_long = refl

abbrev positions : List ℕ
positions = 0 ∷ 1 ∷ 2 ∷ 3 ∷ 29 ∷ 28 ∷ 27 ∷ 26 ∷ []

abbrev ends : JoinCode
ends = record { text = lit "2345-ZYXW" }

from_indices-positions : from_indices positions ≡ some ends
unfolding from_indices pick format
from_indices-positions = refl

parse-significant_iff_example : (parse typed ≡ ok seven) ↔ (
    (length (significant typed) ≡ 8)
    × (all in_alphabet (significant typed) ≡ true)
    × (seven ≡ record { text = format (significant typed) }))
parse-significant_iff_example = parse-significant_iff typed seven

from_indices_total_example : (code : JoinCode) × (from_indices positions ≡ some code)
from_indices_total_example = from_indices_total positions refl (omega arith)

issue-expired_example : issued_status (issue seven (pos 100) (negsuc 4)) (pos 100) ≡ expired
issue-expired_example =
    issue-expired seven (pos 100) (negsuc 4) (pos 100) (omega arith) (omega arith) (omega arith)
