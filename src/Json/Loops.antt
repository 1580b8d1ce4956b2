-- ===== src/Json/Loops.antt =====
-- The parser's loops (crates/anago-core/src/json.rs) on the text that the writer makes of items
-- and of fields.
use anago.Prelude.{
  ℕ, suc, ◌+◌, ◌≤◌, ◌≡◌, refl, false, Option, ◌∷◌, arith, nat_eq, list_eq, ok, contains,
}
use anago.Text.{Text}
use anago.Json.{Value, null, bool, int, str, arr, obj, Items, nil, cons, Fields, end, field, push}
use anago.Json.Write.{
  write_break, write_string, write_chars, write_colon, write_value, write_items, write_fields,
}
use anago.Json.Read.{max_depth, skip_ws}
use anago.Json.Parse.{read_value, read_items, read_fields, read_by_first}
use anago.Json.Valid.{cost, max}
use anago.Json.Objects.{keys}
use anago.Json.Spacing.{skip_ws-write_break, skip_ws-stays, skip_ws-write_value}
use anago.Json.Turns.{
  read_array_loop, read_object_loop, item_turn_last, item_turn_more, field_turn_last,
  field_turn_more, starts-write_value,
}

pub read_value-step :
    (f d : ℕ) (s : Text)
    → d ≤ max_depth
    → read_value (suc f) d s ≡ read_by_first (read_items f d) (read_fields f d) s
unfolding read_value
read_value-step f d s h = ground arith

-- The text of the items or fields, from the first on, up to the closing bracket.
abbrev pub items_text : Value → Items → Option ℕ → ℕ → Text → Text
items_text v vs i w after =
    write_value v i (suc w) (write_items vs i w (write_break i w (b']' ∷ after)))

abbrev pub value_text : Value → Fields → Option ℕ → ℕ → Text → Text
value_text v fs i w after =
    write_value v i (suc w) (write_fields fs i w (write_break i w (b'}' ∷ after)))

abbrev pub field_text : Text → Value → Fields → Option ℕ → ℕ → Text → Text
field_text k v fs i w after = write_string k (write_colon i (value_text v fs i w after))

pub cost-pos : (v : Value) → 1 ≤ cost v
cost-pos null = omega arith
cost-pos (bool b) = omega arith
cost-pos (int z) = omega arith
cost-pos (str s) = omega arith
cost-pos (arr vs) = omega arith
cost-pos (obj fs) = omega arith

pub nesting_first : (d a b : ℕ) → d + max (suc a) b ≤ max_depth → suc d + a ≤ max_depth
nesting_first d a b h = ground arith

pub nesting_rest : (d a b : ℕ) → d + max (suc a) b ≤ max_depth → d + b ≤ max_depth
nesting_rest d a b h = ground arith

-- One step of each loop, from the reading of the value in it.
pub last_item :
    (v : Value) (f d w : ℕ) (i : Option ℕ) (s after : Text)
    → skip_ws s ≡ items_text v nil i w after
    → read_value f (suc d) (items_text v nil i w after) ≡ ok (v, write_break i w (b']' ∷ after))
    → read_items (suc f) d s ≡ ok (cons v nil, after)
unfolding read_value
last_item v f d w i s after e r =
    item_turn_last (read_value f (suc d)) (read_items f d) s (items_text v nil i w after)
      (write_break i w (b']' ∷ after)) after v e r
      (rw (skip_ws-write_break i w (b']' ∷ after)) (skip_ws-stays b']' after refl))

pub more_items :
    (v u : Value) (vs : Items) (f d w : ℕ) (i : Option ℕ) (s after : Text)
    → skip_ws s ≡ items_text v (cons u vs) i w after
    → read_value f (suc d) (items_text v (cons u vs) i w after)
      ≡ ok (v, b',' ∷ write_break i (suc w) (items_text u vs i w after))
    → read_items f d (write_break i (suc w) (items_text u vs i w after)) ≡ ok (cons u vs, after)
    → read_items (suc f) d s ≡ ok (cons v (cons u vs), after)
unfolding read_value write_value
more_items v u vs f d w i s after e r k =
    let t = write_break i (suc w) (items_text u vs i w after) in
    rw
      (
        item_turn_more (read_value f (suc d)) (read_items f d) s
            (items_text v (cons u vs) i w after) (b',' ∷ t) t v e r (skip_ws-stays b',' t refl),
        k,
      )
      refl

pub skip-items_text :
    (v : Value) (vs : Items) (i : Option ℕ) (w : ℕ) (after : Text)
    → skip_ws (write_break i (suc w) (items_text v vs i w after)) ≡ items_text v vs i w after
skip-items_text v vs i w after =
    let t = write_items vs i w (write_break i w (b']' ∷ after)) in
    rw (skip_ws-write_break i (suc w) (items_text v vs i w after))
      (skip_ws-write_value v i (suc w) t)

pub last_field :
    (k : Text) (v : Value) (acc : Fields) (f d w : ℕ) (i : Option ℕ) (s after : Text)
    → skip_ws s ≡ field_text k v end i w after
    → read_value f (suc d) (value_text v end i w after) ≡ ok (v, write_break i w (b'}' ∷ after))
    → contains (keys acc) k ≡ false
    → read_fields (suc f) d acc s ≡ ok (push acc k v, after)
unfolding read_value write_value
last_field k v acc f d w i s after e r fresh =
    let t = value_text v end i w after in
    field_turn_last (read_value f (suc d)) (read_fields f d) acc s t
      (write_break i w (b'}' ∷ after)) after k v i e
      (skip_ws-write_value v i (suc w) (write_break i w (b'}' ∷ after))) r fresh
      (rw (skip_ws-write_break i w (b'}' ∷ after)) (skip_ws-stays b'}' after refl))

pub more_fields :
    (k l : Text) (v u : Value) (fs acc : Fields) (f d w : ℕ) (i : Option ℕ) (s after : Text)
    → skip_ws s ≡ field_text k v (field l u fs) i w after
    → read_value f (suc d) (value_text v (field l u fs) i w after)
      ≡ ok (v, b',' ∷ write_break i (suc w) (field_text l u fs i w after))
    → contains (keys acc) k ≡ false
    → read_fields (suc f) d acc s
      ≡ read_fields f d (push acc k v) (write_break i (suc w) (field_text l u fs i w after))
unfolding read_value write_value
more_fields k l v u fs acc f d w i s after e r fresh =
    let t = write_break i (suc w) (field_text l u fs i w after) in
    field_turn_more (read_value f (suc d)) (read_fields f d) acc s
      (value_text v (field l u fs) i w after) (b',' ∷ t) t k v i e
      (skip_ws-write_value v i (suc w) (b',' ∷ t)) r fresh (skip_ws-stays b',' t refl)

pub skip_ws-write_string : (k after : Text) → skip_ws (write_string k after) ≡ write_string k after
unfolding write_string
skip_ws-write_string k after = skip_ws-stays 0x22 (write_chars k (0x22 ∷ after)) refl

pub skip-field_text :
    (k : Text) (v : Value) (fs : Fields) (i : Option ℕ) (w : ℕ) (after : Text)
    → skip_ws (write_break i (suc w) (field_text k v fs i w after)) ≡ field_text k v fs i w after
skip-field_text k v fs i w after =
    rw (skip_ws-write_break i (suc w) (field_text k v fs i w after))
      (skip_ws-write_string k (write_colon i (value_text v fs i w after)))

pub whole_array :
    (v : Value) (vs : Items) (f d w : ℕ) (i : Option ℕ) (after : Text)
    → d ≤ max_depth
    → read_items f d (items_text v vs i w after) ≡ ok (cons v vs, after)
    → read_value (suc f) d (write_value (arr (cons v vs)) i w after) ≡ ok (arr (cons v vs), after)
unfolding read_by_first write_value
whole_array v vs f d w i after h e =
    let t = items_text v vs i w after in
    let s = write_break i (suc w) t in
    let u = write_items vs i w (write_break i w (b']' ∷ after)) in
    rw
      (
        read_value-step f d (b'[' ∷ s) h,
        read_array_loop (read_items f d) s t (skip-items_text v vs i w after)
            (starts-write_value v i (suc w) u),
        e,
      )
      refl

pub whole_object :
    (k : Text) (v : Value) (fs : Fields) (f d w : ℕ) (i : Option ℕ) (after : Text)
    → d ≤ max_depth
    → read_fields f d end (field_text k v fs i w after) ≡ ok (field k v fs, after)
    → read_value (suc f) d (write_value (obj (field k v fs)) i w after)
      ≡ ok (obj (field k v fs), after)
unfolding read_by_first write_value write_string
whole_object k v fs f d w i after h e =
    let t = field_text k v fs i w after in
    let s = write_break i (suc w) t in
    rw
      (
        read_value-step f d (b'{' ∷ s) h,
        read_object_loop (read_fields f d) s t (skip-field_text k v fs i w after) refl,
        e,
      )
      refl
