-- ===== src/Json/Parse.antt =====
-- crates/anago-core/src/json.rs: the parser's recursion, from the reading of one value to `parse`.
-- The recursion runs on fuel, twice the length of the text and one; see Json/Halts.antt.
use anago.Prelude.{
  ℕ, zero, suc, ◌-◌, ◌*◌, Bool, true, false, ◌||◌, [], ◌∷◌, nat_eq, ◌==◌, if◌then◌else◌, ltb,
  length, Result, ok, err, ◌>>=◌, map_err,
}
use anago.Text.{Text, lit, is_digit, byte_len}
use anago.Json.{Value, null, bool, str, arr, obj, Items, nil, cons, Fields, end, insert}
use anago.Json.Read.{
  max_depth, Problem, Fault, failed, out_of_fuel, Parsed, fail_at, skip_ws, expect, read_literal,
  read_string, read_number, nesting_too_deep, unexpected_end, unexpected_character, expected_key,
  expected_comma_or_brace, expected_comma_or_bracket, duplicate_key, trailing_content,
}

abbrev pub map_ok : {A B : Type 0} → (A → B) → Parsed A → Parsed B
map_ok f (ok (a, s)) = ok (f a, s)
map_ok f (err e) = err e

-- The next character is an item's or a field's end: whether a further one follows.
abbrev pub separator : ℕ → Problem → Text → Parsed Bool
separator close p [] = fail_at p []
separator close p (c ∷ s) =
    if c == b',' then ok (true, s) else if c == close then ok (false, s) else fail_at p (c ∷ s)

-- `array` behind its bracket, its loop as an argument.
abbrev pub array_rest : (Text → Parsed Items) → Text → Parsed Value
array_rest loop [] = map_ok arr (loop [])
array_rest loop (c ∷ s) = if c == b']' then ok (arr nil, s) else map_ok arr (loop (c ∷ s))

unfoldable pub read_array : (Text → Parsed Items) → Text → Parsed Value
read_array loop s = do s1 ← expect b'[' s; array_rest loop (skip_ws s1)

-- `object` behind its brace, its loop as an argument.
abbrev pub object_rest : (Fields → Text → Parsed Fields) → Text → Parsed Value
object_rest loop [] = map_ok obj (loop end [])
object_rest loop (c ∷ s) = if c == b'}' then ok (obj end, s) else map_ok obj (loop end (c ∷ s))

unfoldable pub read_object : (Fields → Text → Parsed Fields) → Text → Parsed Value
read_object loop s = do s1 ← expect b'{' s; object_rest loop (skip_ws s1)

-- The `match` of `value` on the next character.
unfoldable pub read_by_first :
    (Text → Parsed Items) → (Fields → Text → Parsed Fields) → Text → Parsed Value
read_by_first items fields [] = fail_at unexpected_end []
read_by_first items fields (c ∷ s) =
    if c == b'{'
    then read_object fields (c ∷ s)
    else if c == b'['
    then read_array items (c ∷ s)
    else if c == 0x22
    then map_ok str (read_string (c ∷ s))
    else if c == b't'
    then read_literal (lit "true") (bool true) (c ∷ s)
    else if c == b'f'
    then read_literal (lit "false") (bool false) (c ∷ s)
    else if c == b'n'
    then read_literal (lit "null") null (c ∷ s)
    else if (c == b'-') || is_digit c
    then read_number (c ∷ s)
    else fail_at unexpected_character (c ∷ s)

-- The rest of the loop behind an item.
abbrev pub next_item : (Text → Parsed Items) → Value → Bool × Text → Parsed Items
next_item loop v (true, s) = map_ok (cons v) (loop s)
next_item loop v (false, s) = ok (cons v nil, s)

-- One turn of the loop of `array`.
unfoldable pub item_turn : (Text → Parsed Value) → (Text → Parsed Items) → Text → Parsed Items
item_turn item loop s = do
  (v, s1) ← item (skip_ws s)
  r ← separator b']' expected_comma_or_bracket (skip_ws s1)
  next_item loop v r

abbrev pub next_field : (Fields → Text → Parsed Fields) → Fields → Bool × Text → Parsed Fields
next_field loop fs (true, s) = loop fs s
next_field loop fs (false, s) = ok (fs, s)

-- The key of a field; `string` would itself ask for the quotation mark.
unfoldable pub read_key : Text → Parsed Text
read_key [] = fail_at expected_key []
read_key (c ∷ s) = if c == 0x22 then read_string (c ∷ s) else fail_at expected_key (c ∷ s)

-- `obj.insert(key, value)`, the error placed at the key.
abbrev pub insert_at : Text → Fields → Text → Value → Result Fault Fields
insert_at at_key fs key v =
    map_err (insert fs key v) (λ d. failed (duplicate_key d.key) (byte_len at_key))

-- One turn of the loop of `object`.
unfoldable pub field_turn :
    (Text → Parsed Value) → (Fields → Text → Parsed Fields) → Fields → Text → Parsed Fields
field_turn item loop fs s = do
  (key, s1) ← read_key (skip_ws s)
  s2 ← expect b':' (skip_ws s1)
  (v, s3) ← item (skip_ws s2)
  fs' ← insert_at (skip_ws s) fs key v
  r ← separator b'}' expected_comma_or_brace (skip_ws s3)
  next_field loop fs' r

unfoldable mutual
  -- `value`
  pub read_value : ℕ → ℕ → Text → Parsed Value
  read_value zero depth s = err out_of_fuel
  read_value (suc f) depth s =
      if ltb max_depth depth
      then fail_at nesting_too_deep s
      else read_by_first (read_items f depth) (read_fields f depth) s

  pub read_items : ℕ → ℕ → Text → Parsed Items
  read_items zero depth s = err out_of_fuel
  read_items (suc f) depth s = item_turn (read_value f (suc depth)) (read_items f depth) s

  pub read_fields : ℕ → ℕ → Fields → Text → Parsed Fields
  read_fields zero depth fs s = err out_of_fuel
  read_fields (suc f) depth fs s = field_turn (read_value f (suc depth)) (read_fields f depth) fs s

-- `Error`, its offset in bytes.
pub data JsonError : Type 0 where
  json_error : Problem → ℕ → JsonError
  fuel_ran_out : JsonError

abbrev pub at_offset : Text → Fault → JsonError
at_offset input (failed p left) = json_error p (byte_len input - left)
at_offset input out_of_fuel = fuel_ran_out

abbrev pub at_end : Value × Text → Result Fault Value
at_end (v, s) = elim (skip_ws s) [ [] ↦ ok v | c ∷ s1 ↦ fail_at trailing_content (c ∷ s1) ]

abbrev pub parse_fuel : Text → ℕ
parse_fuel s = suc (2 * length s)

unfoldable pub parse_fault : Text → Result Fault Value
parse_fault input = do r ← read_value (parse_fuel input) 0 (skip_ws input); at_end r

unfoldable pub parse : Text → Result JsonError Value
parse input = map_err (parse_fault input) (at_offset input)
