-- ===== src/Json/Sizes.antt =====
-- The length of a JSON text (crates/anago-core/src/json.rs) bounds the fuel that reading it takes.
use anago.Prelude.{
  ℕ, zero, suc, ◌+◌, ◌*◌, ◌≤◌, true, false, Option, none, some, ◌∷◌, arith, length, length-append,
}
use anago.Prelude.Int.{ℤ}
use anago.Text.{Text}
use anago.Json.{Value, null, bool, int, str, arr, obj, Items, nil, cons, Fields, end, field}
use anago.Json.Write.{
  spaces, write_break, write_string, write_colon, write_value, write_items, write_fields,
  int_to_string,
}
use anago.Json.Valid.{cost, cost_items, cost_fields}
use anago.Json.Numbers.{int_to_string-first}
use anago.Json.Strings.{length-write_chars}

length-spaces : (n : ℕ) (after : Text) → length after ≤ length (spaces n after)
length-spaces zero after = omega arith
length-spaces (suc n) after = omega (arith, length-spaces n after)

length-write_break :
    (i : Option ℕ) (depth : ℕ) (after : Text) → length after ≤ length (write_break i depth after)
unfolding write_break
length-write_break none depth after = omega arith
length-write_break (some step) depth after = omega (arith, length-spaces (step * depth) after)

length-write_string : (s after : Text) → suc (suc (length after)) ≤ length (write_string s after)
unfolding write_string
length-write_string s after = omega (arith, length-write_chars s (0x22 ∷ after))

length-write_colon : (i : Option ℕ) (after : Text) → length after ≤ length (write_colon i after)
length-write_colon none after = omega arith
length-write_colon (some step) after = omega arith

length-int_to_string : (z : ℤ) → 1 ≤ length (int_to_string z)
length-int_to_string z = let (c, t, e, first) = int_to_string-first z in rw e (omega arith)

-- What is written in front of a value and behind it only makes the text longer.
key_lem :
    (k : Text) (i : Option ℕ) (depth : ℕ) (after : Text)
    → suc (suc (length after)) ≤ length (write_break i depth (write_string k (write_colon i after)))
key_lem k i depth after = omega (
  arith,
  length-write_break i depth (write_string k (write_colon i after)),
  length-write_string k (write_colon i after),
  length-write_colon i after,
)

mutual
  unfolding write_value

  pub cost-write_value :
      (v : Value) (i : Option ℕ) (depth : ℕ) (after : Text)
      → suc (cost v) + 2 * length after ≤ 2 * length (write_value v i depth after)
  cost-write_value null i depth after = omega arith
  cost-write_value (bool true) i depth after = omega arith
  cost-write_value (bool false) i depth after = omega arith
  cost-write_value (int z) i depth after =
      omega (arith, length-append (int_to_string z) after, length-int_to_string z)
  cost-write_value (str s) i depth after = omega (arith, length-write_string s after)
  cost-write_value (arr nil) i depth after = omega arith
  cost-write_value (arr (cons v vs)) i depth after =
      let tail = write_break i depth (b']' ∷ after) in
      omega (
        arith,
        length-write_break i (suc depth)
            (write_value v i (suc depth) (write_items vs i depth tail)),
        cost-write_value v i (suc depth) (write_items vs i depth tail),
        cost-write_items vs i depth tail,
        length-write_break i depth (b']' ∷ after),
      )
  cost-write_value (obj end) i depth after = omega arith
  cost-write_value (obj (field k v fs)) i depth after =
      let tail = write_break i depth (b'}' ∷ after) in
      omega (
        arith,
        key_lem k i (suc depth) (write_value v i (suc depth) (write_fields fs i depth tail)),
        cost-write_value v i (suc depth) (write_fields fs i depth tail),
        cost-write_fields fs i depth tail,
        length-write_break i depth (b'}' ∷ after),
      )

  pub cost-write_items :
      (vs : Items) (i : Option ℕ) (depth : ℕ) (after : Text)
      → cost_items vs + 2 * length after ≤ 2 * length (write_items vs i depth after)
  cost-write_items nil i depth after = omega arith
  cost-write_items (cons v vs) i depth after = omega (
    arith,
    length-write_break i (suc depth) (write_value v i (suc depth) (write_items vs i depth after)),
    cost-write_value v i (suc depth) (write_items vs i depth after),
    cost-write_items vs i depth after,
  )

  pub cost-write_fields :
      (fs : Fields) (i : Option ℕ) (depth : ℕ) (after : Text)
      → cost_fields fs + 2 * length after ≤ 2 * length (write_fields fs i depth after)
  cost-write_fields end i depth after = omega arith
  cost-write_fields (field k v fs) i depth after = omega (
    arith,
    key_lem k i (suc depth) (write_value v i (suc depth) (write_fields fs i depth after)),
    cost-write_value v i (suc depth) (write_fields fs i depth after),
    cost-write_fields fs i depth after,
  )
