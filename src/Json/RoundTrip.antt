-- ===== src/Json/RoundTrip.antt =====
-- JSON values (crates/anago-core/src/json.rs): what the writer writes is read back.
use anago.Prelude.{
  ℕ, zero, suc, ◌+◌, ◌≤◌, ◌≡◌, refl, sym, subst, false, true, none, some, Option, [], ◌∷◌, ◌++◌,
  arith, nat_eq, list_eq, ok, ◌>>=◌, Distinct, Distinct-middle,
}
use anago.Text.{Text, lit}
use anago.Json.{Value, null, bool, int, str, arr, obj, Items, nil, cons, Fields, end, field, push}
use anago.Json.Write.{
  int_to_string, write_break, write_string, write_colon, write_value, write_items, to_string,
  to_string_pretty,
}
use anago.Json.Read.{max_depth, skip_ws, read_literal, expect}
use anago.Json.Parse.{
  read_value, read_items, read_fields, read_by_first, read_array, read_object, parse, parse_fault,
  parse_fuel,
}
use anago.Json.Valid.{
  WellFormed, WellFormedItems, WellFormedFields, nesting, nesting_items, nesting_fields, cost,
  cost_items, cost_fields,
}
use anago.Json.Objects.{keys, append_fields, append-push, append_end, keys-push-append}
use anago.Json.Numbers.{stops}
use anago.Json.Spacing.{skip_ws-write_value, stops-write_break}
use anago.Json.Turns.{read_by_first-int, read_by_first-str}
use anago.Json.Loops.{
  read_value-step, items_text, value_text, field_text, cost-pos, nesting_first, nesting_rest,
  last_item, more_items, skip-items_text, last_field, more_fields, skip_ws-write_string,
  skip-field_text, whole_array, whole_object,
}
use anago.Json.Sizes.{cost-write_value}

mutual
  unfolding write_value read_by_first read_literal read_array read_object expect skip_ws

  read-write_value :
      (v : Value) (f d w : ℕ) (i : Option ℕ) (after : Text)
      → WellFormed v
      → d + nesting v ≤ max_depth
      → cost v ≤ f
      → stops after ≡ true
      → read_value f d (write_value v i w after) ≡ ok (v, after)
  read-write_value v zero d w i after h n c k = absurd (omega (arith, cost-pos v))
  read-write_value null (suc f) d w i after h n c k =
      rw (read_value-step f d (lit "null" ++ after) (omega arith)) (refl)
  read-write_value (bool true) (suc f) d w i after h n c k =
      rw (read_value-step f d (lit "true" ++ after) (omega arith)) (refl)
  read-write_value (bool false) (suc f) d w i after h n c k =
      rw (read_value-step f d (lit "false" ++ after) (omega arith)) (refl)
  read-write_value (int z) (suc f) d w i after h n c k =
      rw (read_value-step f d (int_to_string z ++ after) (omega arith))
        (read_by_first-int (read_items f d) (read_fields f d) z after h k)
  read-write_value (str s) (suc f) d w i after h n c k =
      rw (read_value-step f d (write_string s after) (omega arith))
        (read_by_first-str (read_items f d) (read_fields f d) s after)
  read-write_value (arr nil) (suc f) d w i after h n c k =
      rw (read_value-step f d (b'[' ∷ b']' ∷ after) (omega arith)) (ground arith)
  read-write_value (arr (cons v vs)) (suc f) d w i after h n c k =
      let t = items_text v vs i w after in
      let u = write_items vs i w (write_break i w (b']' ∷ after)) in
      whole_array v vs f d w i after (omega arith) (
        read-write_items v vs f d w i t after h n (omega arith) (skip_ws-write_value v i (suc w) u))
  read-write_value (obj end) (suc f) d w i after h n c k =
      rw (read_value-step f d (b'{' ∷ b'}' ∷ after) (omega arith)) (ground arith)
  read-write_value (obj (field key v fs)) (suc f) d w i after h n c k =
      let t = field_text key v fs i w after in
      whole_object key v fs f d w i after (omega arith) (
        read-write_fields key v fs end f d w i t after h.0 h.1 n (omega arith)
          (skip_ws-write_string key (write_colon i (value_text v fs i w after))))

  read-write_items :
      (v : Value) (vs : Items) (f d w : ℕ) (i : Option ℕ) (s after : Text)
      → WellFormedItems (cons v vs)
      → d + nesting_items (cons v vs) ≤ max_depth
      → cost_items (cons v vs) ≤ f
      → skip_ws s ≡ items_text v vs i w after
      → read_items f d s ≡ ok (cons v vs, after)
  read-write_items v vs zero d w i s after h n c e = elim c [ ]
  read-write_items v nil (suc f) d w i s after h n c e = last_item v f d w i s after e (
      read-write_value v f (suc d) (suc w) i (write_break i w (b']' ∷ after)) h.0
        (nesting_first d (nesting v) _ n) (omega arith) (stops-write_break i w b']' after refl))
  read-write_items v (cons u vs) (suc f) d w i s after h n c e =
      let t = write_break i (suc w) (items_text u vs i w after) in
      more_items v u vs f d w i s after e
        (read-write_value v f (suc d) (suc w) i (b',' ∷ t) h.0 (nesting_first d (nesting v) _ n)
          (omega arith) refl)
        (read-write_items u vs f d w i t after h.1 (nesting_rest d (nesting v) _ n) (omega arith)
          (skip-items_text u vs i w after))

  read-write_fields :
      (k : Text) (v : Value) (fs acc : Fields) (f d w : ℕ) (i : Option ℕ) (s after : Text)
      → Distinct (keys acc ++ (k ∷ keys fs))
      → WellFormedFields (field k v fs)
      → d + nesting_fields (field k v fs) ≤ max_depth
      → cost_fields (field k v fs) ≤ f
      → skip_ws s ≡ field_text k v fs i w after
      → read_fields f d acc s ≡ ok (append_fields acc (field k v fs), after)
  read-write_fields k v fs acc zero d w i s after q h n c e = elim c [ ]
  read-write_fields k v end acc (suc f) d w i s after q h n c e =
      rw (← append-push acc k v end, append_end (push acc k v))
        (last_field k v acc f d w i s after e
          (read-write_value v f (suc d) (suc w) i (write_break i w (b'}' ∷ after)) h.0
            (nesting_first d (nesting v) _ n) (omega arith) (stops-write_break i w b'}' after refl))
          (Distinct-middle (keys acc) k [] q))
  read-write_fields k v (field l u fs) acc (suc f) d w i s after q h n c e =
      let t = write_break i (suc w) (field_text l u fs i w after) in
      let fresh = Distinct-middle (keys acc) k (l ∷ keys fs) q in
      rw
        (
          ← append-push acc k v (field l u fs),
          more_fields k l v u fs acc f d w i s after e
              (read-write_value v f (suc d) (suc w) i (b',' ∷ t) h.0
                (nesting_first d (nesting v) _ n) (omega arith) refl)
              fresh,
        )
        (read-write_fields l u fs (push acc k v) f d w i t after
          (subst Distinct (sym (keys-push-append acc k v (l ∷ keys fs))) q) h.1
          (nesting_rest d (nesting v) _ n) (omega arith) (skip-field_text l u fs i w after))

read-whole :
    (v : Value) (i : Option ℕ)
    → WellFormed v
    → nesting v ≤ max_depth
    → parse (write_value v i 0 []) ≡ ok v
unfolding parse parse_fault skip_ws
read-whole v i h n =
    let t = write_value v i 0 [] in
    let enough : cost v ≤ parse_fuel t = omega (arith, cost-write_value v i 0 []) in
    rw
      (
        skip_ws-write_value v i 0 [],
        read-write_value v (parse_fuel t) 0 0 i [] h (omega arith) enough refl,
        ◌>>=◌,
      )
      refl

-- A value whose integers are in the range of `i64`, whose objects have no key twice and that nests
-- no deeper than 64 reads back from both of its texts, the compact and the indented one.
pub parse-to_string :
    (v : Value)
    → WellFormed v
    → nesting v ≤ max_depth
    → (parse (to_string v) ≡ ok v) × (parse (to_string_pretty v) ≡ ok v)
parse-to_string v h n = (read-whole v none h n, read-whole v (some 2) h n)
