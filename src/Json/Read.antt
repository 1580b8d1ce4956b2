-- ===== src/Json/Read.antt =====
-- crates/anago-core/src/json.rs: the parser. `self.i` is here the text that is left: a step takes
-- it and returns what it leaves. The source reads bytes; it splits them at ASCII characters only,
-- so that a string it collects is always valid UTF-8 and characters serve as well.
use anago.Prelude.{
  ℕ, zero, suc, ◌+◌, ◌-◌, ◌*◌, Bool, true, false, ◌&&◌, ◌||◌, not, Option, none, some, [], ◌∷◌,
  nat_eq, list_eq, ◌==◌, if◌then◌else◌, ltb, leb, length, Result, ok, err, ◌>>=◌,
}
use anago.Prelude.Int.{ℤ, pos, negsuc}
use anago.Prelude.I64.{bound}
use anago.Text.{Text, lit, is_digit, byte_len, strip_prefix}
use anago.Text.Decimal.{value}
use anago.Json.{Value, int}

-- `MAX_DEPTH`
abbrev pub max_depth : ℕ
max_depth = 64

-- The messages of the parser's errors.
pub data Problem : Type 0 where
  trailing_content nesting_too_deep unexpected_end unexpected_character : Problem
  invalid_literal expected_key expected_comma_or_brace expected_comma_or_bracket : Problem
  unterminated_string unterminated_escape invalid_escape control_character : Problem
  lone_high_surrogate invalid_low_surrogate lone_low_surrogate : Problem
  invalid_code_point truncated_escape invalid_hex_digit : Problem
  expected_digits leading_zero floats_unsupported out_of_range : Problem
  expected : ℕ → Problem
  duplicate_key : Text → Problem

-- A problem with the number of bytes that were left where it was noticed, or the end of the fuel,
-- which the source does not have.
pub data Fault : Type 0 where
  failed : Problem → ℕ → Fault
  out_of_fuel : Fault

abbrev pub Parsed : Type 0 → Type 0
Parsed A = Result Fault (A × Text)

-- `Err(self.err(msg))`
abbrev pub fail_at : {A : Type 0} → Problem → Text → Result Fault A
fail_at p s = err (failed p (byte_len s))

abbrev pub is_space : ℕ → Bool
is_space c = (c == 0x20) || (c == 0x09) || (c == 0x0A) || (c == 0x0D)

unfoldable pub skip_ws : Text → Text
skip_ws [] = []
skip_ws (c ∷ s) = if is_space c then skip_ws s else c ∷ s

unfoldable pub expect : ℕ → Text → Result Fault Text
expect c [] = fail_at (expected c) []
expect c (d ∷ s) = if d == c then ok s else fail_at (expected c) (d ∷ s)

unfoldable pub read_literal : Text → Value → Text → Parsed Value
read_literal word v s = elim (strip_prefix word s) [
  | some rest ↦ ok (v, rest)
  | none ↦ fail_at invalid_literal s
]

abbrev pub hex_value : ℕ → Option ℕ
hex_value c =
    if is_digit c
    then some (c - b'0')
    else if leb b'a' c && leb c b'f'
    then some (c - b'a' + 10)
    else if leb b'A' c && leb c b'F'
    then some (c - b'A' + 10)
    else none

abbrev pub hex_run : ℕ → ℕ → Text → Option (ℕ × Text)
hex_run zero acc s = some (acc, s)
hex_run (suc n) acc [] = none
hex_run (suc n) acc (c ∷ s) = elim (hex_value c) [
  | none ↦ none
  | some d ↦ hex_run n (acc * 16 + d) s
]

-- Four bytes that are fewer than four characters are not all hexadecimal digits.
unfoldable pub hex4 : Text → Parsed ℕ
hex4 s =
    if ltb (byte_len s) 4
    then fail_at truncated_escape s
    else (elim (hex_run 4 0 s) [ some r ↦ ok r | none ↦ fail_at invalid_hex_digit s ])

-- `char::from_u32`: no surrogate, and at most 0x10FFFF.
abbrev pub is_scalar : ℕ → Bool
is_scalar c = leb c 0x10FFFF && not (leb 0xD800 c && leb c 0xDFFF)

abbrev pub scalar : ℕ → Text → Parsed ℕ
scalar c s = if is_scalar c then ok (c, s) else fail_at invalid_code_point s

abbrev pub join_surrogates : ℕ → ℕ → Text → Parsed ℕ
join_surrogates high low s =
    if leb 0xDC00 low && leb low 0xDFFF
    then scalar (0x10000 + (high - 0xD800) * 0x400 + (low - 0xDC00)) s
    else fail_at invalid_low_surrogate s

abbrev pub low_surrogate : ℕ → Text → Parsed ℕ
low_surrogate high s = do (low, s1) ← hex4 s; join_surrogates high low s1

-- `unicode_escape` from the first four digits on.
abbrev pub code_point : ℕ × Text → Parsed ℕ
code_point (first, s) =
    if leb 0xD800 first && leb first 0xDBFF
    then (elim (strip_prefix (lit "\\u") s) [
      | none ↦ fail_at lone_high_surrogate s
      | some s1 ↦ low_surrogate first s1
    ])
    else if leb 0xDC00 first && leb first 0xDFFF
    then fail_at lone_low_surrogate s
    else scalar first s

unfoldable pub unicode_escape : Text → Parsed ℕ
unicode_escape s = do first ← hex4 s; code_point first

-- The escapes of one letter.
abbrev pub short_escape : ℕ → Option ℕ
short_escape c =
    if (c == 0x22) || (c == 0x5C) || (c == b'/')
    then some c
    else if c == b'b'
    then some 0x08
    else if c == b'f'
    then some 0x0C
    else if c == b'n'
    then some 0x0A
    else if c == b'r'
    then some 0x0D
    else if c == b't'
    then some 0x09
    else none

-- The character after a backslash; one that is no escape is refused one byte into it.
unfoldable pub read_escape : Text → Parsed ℕ
read_escape [] = fail_at unterminated_escape []
read_escape (c ∷ s) = elim (short_escape c) [
  | some d ↦ ok (d, s)
  | none ↦
      if c == b'u' then unicode_escape s else err (failed invalid_escape (byte_len (c ∷ s) - 1))
]

-- One turn of the loop of `string`: a character, or the end of the string.
unfoldable pub read_char : Text → Parsed (Option ℕ)
read_char [] = fail_at unterminated_string []
read_char (c ∷ s) =
    if c == 0x22
    then ok (none, s)
    else if c == 0x5C
    then (do (e, s1) ← read_escape s; ok (some e, s1))
    else if ltb c 0x20
    then fail_at control_character (c ∷ s)
    else ok (some c, s)

abbrev pub grow : ℕ → Text × Text → Parsed Text
grow c (buf, s) = ok (c ∷ buf, s)

unfoldable pub read_chars : ℕ → Text → Parsed Text
read_chars zero s = err out_of_fuel
read_chars (suc f) s = do
  (next, s1) ← read_char s
  elim next [ none ↦ ok ([], s1) | some c ↦ do r ← read_chars f s1; grow c r ]

-- Every turn takes a character or more, so the length of the text is fuel enough.
unfoldable pub read_string : Text → Parsed Text
read_string s = do s1 ← expect 0x22 s; read_chars (suc (length s1)) s1

-- The longest run of digits at the start.
abbrev pub digits : Text → Text × Text
digits [] = ([], [])
digits (c ∷ s) = if is_digit c then (c ∷ (digits s).0, (digits s).1) else ([], c ∷ s)

abbrev pub is_float_mark : Text → Bool
is_float_mark [] = false
is_float_mark (c ∷ s) = (c == b'.') || (c == b'e') || (c == b'E')

-- A zero that is not the only digit.
abbrev pub has_leading_zero : Text → Bool
has_leading_zero [] = false
has_leading_zero (c ∷ s) = (c == b'0') && ltb 0 (length s)

-- `text.parse::<i64>()` of a sign and digits.
abbrev pub in_range : Bool → ℕ → Option ℤ
in_range false n = if leb n bound then some (pos n) else none
in_range true zero = some (pos 0)
in_range true (suc n) = if leb n bound then some (negsuc n) else none

-- `number` from the digits on: `start` is the whole number, with the sign.
unfoldable pub read_digits : Bool → Text → Text → Parsed Value
read_digits negative start s =
    let (ds, rest) = digits s in
    if length ds == 0
    then fail_at expected_digits rest
    else if has_leading_zero ds
    then fail_at leading_zero s
    else if is_float_mark rest
    then fail_at floats_unsupported rest
    else (elim (in_range negative (value ds)) [
      | some n ↦ ok (int n, rest)
      | none ↦ fail_at out_of_range start
    ])

unfoldable pub read_number : Text → Parsed Value
read_number s = elim (strip_prefix (b'-' ∷ []) s) [
  | some s1 ↦ read_digits true s s1
  | none ↦ read_digits false s s
]
