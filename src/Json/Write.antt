-- ===== src/Json/Write.antt =====
-- crates/anago-core/src/json.rs: the writer. A function that pushes onto `out` is here one of
-- `after`, the text that is pushed after it.
use anago.Prelude.{
  ℕ, zero, suc, ◌+◌, ◌*◌, ◌/◌, ◌%◌, true, false, Option, none, some, [], ◌∷◌, ◌++◌, nat_eq, ◌==◌,
  if◌then◌else◌, ltb,
}
use anago.Prelude.Int.{ℤ, pos, negsuc}
use anago.Text.{Text, lit}
use anago.Text.Decimal.{decimal}
use anago.Json.{Value, null, bool, int, str, arr, obj, Items, nil, cons, Fields, end, field}

-- `i64::to_string`
unfoldable pub int_to_string : ℤ → Text
int_to_string (pos n) = decimal n
int_to_string (negsuc n) = b'-' ∷ decimal (suc n)

abbrev pub spaces : ℕ → Text → Text
spaces zero after = after
spaces (suc n) after = b' ' ∷ spaces n after

unfoldable pub write_break : Option ℕ → ℕ → Text → Text
write_break none depth after = after
write_break (some step) depth after = 0x0A ∷ spaces (step * depth) after

-- A digit of `{:04x}`.
abbrev pub hex_char : ℕ → ℕ
hex_char d = if ltb d 10 then d + b'0' else d + 87

-- One character of a string; below 0x20 the first two of the four digits are zero.
unfoldable pub write_char : ℕ → Text → Text
write_char c after =
    if c == 0x22
    then 0x5C ∷ 0x22 ∷ after
    else if c == 0x5C
    then 0x5C ∷ 0x5C ∷ after
    else if c == 0x0A
    then 0x5C ∷ b'n' ∷ after
    else if c == 0x0D
    then 0x5C ∷ b'r' ∷ after
    else if c == 0x09
    then 0x5C ∷ b't' ∷ after
    else if c == 0x08
    then 0x5C ∷ b'b' ∷ after
    else if c == 0x0C
    then 0x5C ∷ b'f' ∷ after
    else if ltb c 0x20
    then 0x5C ∷ b'u' ∷ b'0' ∷ b'0' ∷ hex_char (c / 16) ∷ hex_char (c % 16) ∷ after
    else c ∷ after

unfoldable pub write_chars : Text → Text → Text
write_chars [] after = after
write_chars (c ∷ s) after = write_char c (write_chars s after)

unfoldable pub write_string : Text → Text → Text
write_string s after = 0x22 ∷ write_chars s (0x22 ∷ after)

-- `out.push(':')`, and a space in the indented form.
abbrev pub write_colon : Option ℕ → Text → Text
write_colon none after = b':' ∷ after
write_colon (some step) after = b':' ∷ b' ' ∷ after

-- `write_value`: the loops over items and over fields write the ones after the first, each behind
-- a comma.
unfoldable mutual
  pub write_value : Value → Option ℕ → ℕ → Text → Text
  write_value null indent depth after = lit "null" ++ after
  write_value (bool true) indent depth after = lit "true" ++ after
  write_value (bool false) indent depth after = lit "false" ++ after
  write_value (int n) indent depth after = int_to_string n ++ after
  write_value (str s) indent depth after = write_string s after
  write_value (arr nil) indent depth after = b'[' ∷ b']' ∷ after
  write_value (arr (cons v vs)) indent depth after =
      b'['
      ∷ write_break indent (suc depth) (
          write_value v indent (suc depth)
            (write_items vs indent depth (write_break indent depth (b']' ∷ after))))
  write_value (obj end) indent depth after = b'{' ∷ b'}' ∷ after
  write_value (obj (field k v fs)) indent depth after =
      b'{'
      ∷ write_break indent (suc depth) (
          write_string k (
            write_colon indent (
              write_value v indent (suc depth)
                (write_fields fs indent depth (write_break indent depth (b'}' ∷ after))))))

  pub write_items : Items → Option ℕ → ℕ → Text → Text
  write_items nil indent depth after = after
  write_items (cons v vs) indent depth after =
      b','
      ∷ write_break indent (suc depth)
          (write_value v indent (suc depth) (write_items vs indent depth after))

  pub write_fields : Fields → Option ℕ → ℕ → Text → Text
  write_fields end indent depth after = after
  write_fields (field k v fs) indent depth after =
      b','
      ∷ write_break indent (suc depth) (
          write_string k (
            write_colon indent
              (write_value v indent (suc depth) (write_fields fs indent depth after))))

abbrev pub to_string : Value → Text
to_string v = write_value v none 0 []

abbrev pub to_string_pretty : Value → Text
to_string_pretty v = write_value v (some 2) 0 []
