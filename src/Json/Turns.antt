-- ===== src/Json/Turns.antt =====
-- The turns of the parser's loops (crates/anago-core/src/json.rs), from what their parts return.
use anago.Prelude.{
  ℕ, ◌≡◌, refl, subst, false, true, none, some, Option, [], ◌∷◌, ◌++◌, arith, nat_eq, ◌==◌, ok,
  ◌>>=◌, Bool, contains, list_eq,
}
use anago.Text.{Text}
use anago.Json.{Value, null, bool, int, str, arr, obj, Items, nil, cons, Fields, end, field, push}
use anago.Json.Write.{write_string, write_colon, write_value, int_to_string}
use anago.Json.Read.{expected_comma_or_brace, skip_ws, expect, Parsed, read_number}
use anago.Json.Parse.{
  read_array, read_object, read_by_first, item_turn, field_turn, read_key, map_ok, separator,
  next_field,
}
use anago.Json.Objects.{keys, insert_fresh}
use anago.Json.Strings.{read_string-write_string}
use anago.Json.Numbers.{stops, int_to_string-first, read_number-int_to_string}
use anago.Prelude.Int.{ℤ}
use anago.Prelude.I64.{IsI64}

-- The text starts with the character.
abbrev pub starts : ℕ → Text → Bool
starts c [] = false
starts c (d ∷ s) = d == c

pub read_array_loop :
    (loop : Text → Parsed Items) (s t : Text)
    → skip_ws s ≡ t
    → starts b']' t ≡ false
    → read_array loop (b'[' ∷ s) ≡ map_ok arr (loop t)
unfolding read_array expect
read_array_loop loop s [] e h = ground arith
read_array_loop loop s (c ∷ t) e h = ground arith

pub read_object_loop :
    (loop : Fields → Text → Parsed Fields) (s t : Text)
    → skip_ws s ≡ t
    → starts b'}' t ≡ false
    → read_object loop (b'{' ∷ s) ≡ map_ok obj (loop end t)
unfolding read_object expect
read_object_loop loop s [] e h = ground arith
read_object_loop loop s (c ∷ t) e h = ground arith

module _ (item : Text → Parsed Value) (loop : Text → Parsed Items) where
  pub item_turn_last :
      (s t s1 s2 : Text) (v : Value)
      → skip_ws s ≡ t
      → item t ≡ ok (v, s1)
      → skip_ws s1 ≡ b']' ∷ s2
      → item_turn item loop s ≡ ok (cons v nil, s2)
  unfolding item_turn
  item_turn_last s t s1 s2 v e i k = rw (e, i, ◌>>=◌, k) refl

  pub item_turn_more :
      (s t s1 s2 : Text) (v : Value)
      → skip_ws s ≡ t
      → item t ≡ ok (v, s1)
      → skip_ws s1 ≡ b',' ∷ s2
      → item_turn item loop s ≡ map_ok (cons v) (loop s2)
  unfolding item_turn
  item_turn_more s t s1 s2 v e i k = rw (e, i, ◌>>=◌, k) refl

read_key-write_string : (k s : Text) → read_key (write_string k s) ≡ ok (k, s)
unfolding read_key write_string
read_key-write_string k s = rw (← read_string-write_string k s) refl

skip_ws-write_colon :
    (indent : Option ℕ) (t : Text)
    → (x : Text) × (skip_ws (write_colon indent t) ≡ b':' ∷ x) × (skip_ws x ≡ skip_ws t)
unfolding skip_ws
skip_ws-write_colon none t = (t, refl, refl)
skip_ws-write_colon (some step) t = (b' ' ∷ t, refl, refl)

module _ (item : Text → Parsed Value) (loop : Fields → Text → Parsed Fields) (fs : Fields) where
  field_turn_start :
      (s t s1 : Text) (k : Text) (v : Value) (indent : Option ℕ)
      → skip_ws s ≡ write_string k (write_colon indent t)
      → skip_ws t ≡ t
      → item t ≡ ok (v, s1)
      → contains (keys fs) k ≡ false
      → field_turn item loop fs s ≡ (do
        r ← separator b'}' expected_comma_or_brace (skip_ws s1)
        next_field loop (push fs k v) r)
  unfolding field_turn expect
  field_turn_start s t s1 k v indent e q i h =
      let (x, colon, space) = skip_ws-write_colon indent t in
      rw
        (
          e,
          read_key-write_string k (write_colon indent t),
          ◌>>=◌,
          colon,
          space,
          q,
          i,
          insert_fresh fs k v h,
        )
        refl

  pub field_turn_last :
      (s t s1 s2 : Text) (k : Text) (v : Value) (indent : Option ℕ)
      → skip_ws s ≡ write_string k (write_colon indent t)
      → skip_ws t ≡ t
      → item t ≡ ok (v, s1)
      → contains (keys fs) k ≡ false
      → skip_ws s1 ≡ b'}' ∷ s2
      → field_turn item loop fs s ≡ ok (push fs k v, s2)
  field_turn_last s t s1 s2 k v indent e q i h end_at =
      rw (field_turn_start s t s1 k v indent e q i h, end_at) refl

  pub field_turn_more :
      (s t s1 s2 : Text) (k : Text) (v : Value) (indent : Option ℕ)
      → skip_ws s ≡ write_string k (write_colon indent t)
      → skip_ws t ≡ t
      → item t ≡ ok (v, s1)
      → contains (keys fs) k ≡ false
      → skip_ws s1 ≡ b',' ∷ s2
      → field_turn item loop fs s ≡ loop (push fs k v) s2
  field_turn_more s t s1 s2 k v indent e q i h comma =
      rw (field_turn_start s t s1 k v indent e q i h, comma) refl

-- The first character of a value is the end of no array.
pub starts-write_value :
    (v : Value) (indent : Option ℕ) (depth : ℕ) (after : Text)
    → starts b']' (write_value v indent depth after) ≡ false
unfolding write_value write_string
starts-write_value null indent depth after = refl
starts-write_value (bool true) indent depth after = refl
starts-write_value (bool false) indent depth after = refl
starts-write_value (int z) indent depth after =
    let (c, t, e, first) = int_to_string-first z in ground (arith, e, first)
starts-write_value (str s) indent depth after = refl
starts-write_value (arr nil) indent depth after = refl
starts-write_value (arr (cons v vs)) indent depth after = refl
starts-write_value (obj end) indent depth after = refl
starts-write_value (obj (field k v fs)) indent depth after = refl

-- The values that hold no other.
module _ (items : Text → Parsed Items) (fields : Fields → Text → Parsed Fields) where
  pub read_by_first-int :
      (z : ℤ) (after : Text)
      → IsI64 z
      → stops after ≡ true
      → read_by_first items fields (int_to_string z ++ after) ≡ ok (int z, after)
  unfolding read_by_first
  read_by_first-int z after h k =
      let (c, t, e, first) = int_to_string-first z in
      let r : read_number (c ∷ (t ++ after)) ≡ ok (int z, after) =
        subst (λ x. read_number (x ++ after) ≡ ok (int z, after)) e
          (read_number-int_to_string z after h k) in
      rw e (ground arith)

  pub read_by_first-str :
      (s after : Text) → read_by_first items fields (write_string s after) ≡ ok (str s, after)
  unfolding read_by_first write_string
  read_by_first-str s after = rw (read_string-write_string s after) refl
