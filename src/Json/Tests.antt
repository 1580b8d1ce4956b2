-- ===== src/Json/Tests.antt =====
-- Runs of the JSON writer and parser, and the properties at concrete values.
use anago.Prelude.{◌≡◌, ◌≤◌, ◌↔◌, list_eq, nat_eq, refl, true, false, List, [], ◌∷◌, ok, err, arith}
use anago.Prelude.Int.{pos, negsuc}
use anago.Text.{Text, lit}
use anago.Json.{Value, null, bool, int, str, arr, obj, nil, cons, end, field}
use anago.Json.Write.{
  to_string, to_string_pretty, write_value, write_break, write_string, write_chars, write_char,
}
use anago.Json.Read.{
  invalid_escape, max_depth, skip_ws, read_string, expect, read_chars, read_char, read_escape,
  unicode_escape, hex4, read_number, read_digits,
}
use anago.Json.Parse.{
  parse, parse_fault, read_value, read_by_first, read_array, item_turn, json_error,
}
use anago.Json.Valid.{WellFormed, nesting}
use anago.Json.RoundTrip.{parse-to_string}
use anago.Json.Whole.{parse-Returns, Returns, parse-to_string-eq_iff}

abbrev device : Value
device = obj (
    field (lit "name") (str (lit "a\"b\n"))
      (field (lit "last_seen") null (field (lit "enabled") (bool true) end)))

abbrev document : Value
document = obj (
    field (lit "version") (int (pos 1)) (
      field (lit "peers") (arr (cons device (cons (int (negsuc 41)) nil)))
        (field (lit "codes") (arr nil) end)))

device-WellFormed : WellFormed device
device-WellFormed = ((refl, (refl, (refl, tt))), (tt, (tt, (tt, tt))))

document-WellFormed : WellFormed document
document-WellFormed =
    ((refl, (refl, (refl, tt))), (omega arith, ((device-WellFormed, (omega arith, tt)), (tt, tt))))

parse-to_string_example :
    (parse (to_string document) ≡ ok document) × (parse (to_string_pretty document) ≡ ok document)
parse-to_string_example = parse-to_string document document-WellFormed (omega arith)

parse-Returns_example : Returns (lit "[1, \"\\x\"]") (parse (lit "[1, \"\\x\"]"))
parse-Returns_example = parse-Returns (lit "[1, \"\\x\"]")

parse-spaced : parse (lit " [ -7 ]") ≡ ok (arr (cons (int (negsuc 6)) nil))
unfolding parse parse_fault read_value read_by_first skip_ws read_array expect item_turn read_number
    read_digits
parse-spaced = refl

parse-to_string-eq_iff_example :
    (parse (to_string document) ≡ ok document) ↔ (nesting document ≤ max_depth)
parse-to_string-eq_iff_example = parse-to_string-eq_iff document document-WellFormed

abbrev pairs : List (Text × Value)
pairs = (lit "a", null) ∷ (lit "b", bool false) ∷ []

-- A surrogate pair, and the offset of an error.
surrogates_join : parse (lit " \"\\ud83d\\udc1f\\/\" ") ≡ ok (str (0x1F41F ∷ b'/' ∷ []))
unfolding parse parse_fault read_value read_by_first skip_ws read_string expect read_chars read_char
    read_escape unicode_escape hex4
surrogates_join = refl

escape_offset : parse (lit "[1, \"\\x\"]") ≡ err (json_error invalid_escape 7)
unfolding parse parse_fault read_value read_by_first skip_ws read_array expect item_turn read_number
    read_digits read_string read_chars read_char read_escape
escape_offset = refl

pretty_text :
    to_string_pretty (obj (field (lit "codes") (arr nil) end)) ≡ lit "{\n  \"codes\": []\n}"
unfolding write_value write_break write_string write_chars write_char
pretty_text = refl
