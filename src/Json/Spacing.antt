-- ===== src/Json/Spacing.antt =====
-- White space in JSON (crates/anago-core/src/json.rs): the parser skips what the writer's line
-- breaks put, and nothing else the writer writes; what the writer puts behind a value ends it.
use anago.Prelude.{
  ℕ, zero, suc, ◌≡◌, refl, true, false, none, some, Option, ◌∷◌, arith, nat_eq, ◌*◌,
}
use anago.Text.{Text}
use anago.Json.{Value, null, bool, int, str, arr, obj, Items, nil, cons, Fields, end, field}
use anago.Json.Write.{spaces, write_break, write_string, write_value, write_items, write_fields}
use anago.Json.Read.{skip_ws, is_space}
use anago.Json.Numbers.{stops, int_to_string-first}

skip_ws-spaces : (n : ℕ) (after : Text) → skip_ws (spaces n after) ≡ skip_ws after
unfolding skip_ws
skip_ws-spaces zero after = refl
skip_ws-spaces (suc n) after = skip_ws-spaces n after

pub skip_ws-write_break :
    (indent : Option ℕ) (depth : ℕ) (after : Text)
    → skip_ws (write_break indent depth after) ≡ skip_ws after
unfolding skip_ws write_break
skip_ws-write_break none depth after = refl
skip_ws-write_break (some step) depth after = skip_ws-spaces (step * depth) after

pub skip_ws-stays : (c : ℕ) (s : Text) → is_space c ≡ false → skip_ws (c ∷ s) ≡ c ∷ s
unfolding skip_ws
skip_ws-stays c s h = ground arith

pub skip_ws-write_value :
    (v : Value) (indent : Option ℕ) (depth : ℕ) (after : Text)
    → skip_ws (write_value v indent depth after) ≡ write_value v indent depth after
unfolding skip_ws write_value write_string
skip_ws-write_value null indent depth after = refl
skip_ws-write_value (bool true) indent depth after = refl
skip_ws-write_value (bool false) indent depth after = refl
skip_ws-write_value (int z) indent depth after =
    let (c, t, e, first) = int_to_string-first z in ground (arith, e, first)
skip_ws-write_value (str s) indent depth after = refl
skip_ws-write_value (arr nil) indent depth after = refl
skip_ws-write_value (arr (cons v vs)) indent depth after = refl
skip_ws-write_value (obj end) indent depth after = refl
skip_ws-write_value (obj (field k v fs)) indent depth after = refl

-- A line break stands where the text behind a value begins, or what is behind it does.
pub stops-write_break :
    (indent : Option ℕ) (depth c : ℕ) (after : Text)
    → stops (c ∷ after) ≡ true
    → stops (write_break indent depth (c ∷ after)) ≡ true
unfolding write_break
stops-write_break none depth c after h = h
stops-write_break (some step) depth c after h = refl

pub stops-write_items :
    (vs : Items) (indent : Option ℕ) (depth : ℕ) (after : Text)
    → stops after ≡ true
    → stops (write_items vs indent depth after) ≡ true
unfolding write_items
stops-write_items nil indent depth after h = h
stops-write_items (cons v vs) indent depth after h = refl

pub stops-write_fields :
    (fs : Fields) (indent : Option ℕ) (depth : ℕ) (after : Text)
    → stops after ≡ true
    → stops (write_fields fs indent depth after) ≡ true
unfolding write_fields
stops-write_fields end indent depth after h = h
stops-write_fields (field k v fs) indent depth after h = refl
