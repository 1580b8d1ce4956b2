-- ===== src/Json/Sound.antt =====
-- What the JSON parser returns (crates/anago-core/src/json.rs), and that it returns.
use anago.Prelude.{
  ℕ, zero, suc, ◌+◌, ◌*◌, ◌≤◌, ◌<◌, sym, subst, Bool, true, false, [], ◌∷◌, arith, nat_eq, list_eq,
  ◌==◌, ltb, length, Bool-cases, inl, inr, Result-cases,
}
use anago.Text.{Text}
use anago.Json.{Value, Fields, end, field, push, insert}
use anago.Json.Read.{max_depth, Parsed, skip_ws, expect, expected_comma_or_brace}
use anago.Json.Parse.{
  separator, next_field, read_key, insert_at, field_turn, read_value, read_items, read_fields,
}
use anago.Json.Valid.{WellFormed, WellFormedFields, nesting, nesting_fields, max}
use anago.Json.Objects.{insert-eq-ok, push-Distinct}
use anago.Json.Escapes.{read_string-Yields}
use anago.Json.Yields.{
  Yields, Yields-ok, Yields-fails, bind-Yields, imp-Yields, if-Yields, length-skip_ws,
  expect-Yields, Shorter,
}
use anago.Json.Containers.{
  IsValue, IsItems, IsObject, IsFields, separator-Yields, read_by_first-Yields, item_turn-Yields,
  nesting-max,
}

WellFormedFields-push :
    (fs : Fields) (k : Text) (v : Value)
    → WellFormedFields fs
    → WellFormed v
    → WellFormedFields (push fs k v)
WellFormedFields-push end k v h w = (w, tt)
WellFormedFields-push (field l u fs) k v h w = (h.0, WellFormedFields-push fs k v h.1 w)

nesting_fields-push :
    (fs : Fields) (k : Text) (v : Value) (d : ℕ)
    → d + nesting_fields fs ≤ max_depth
    → suc d + nesting v ≤ max_depth
    → d + nesting_fields (push fs k v) ≤ max_depth
nesting_fields-push end k v d h w = nesting-max d (nesting v) 0 w h
nesting_fields-push (field l u fs) k v d h w =
    nesting-max d (nesting u) _ (first_of (nesting u) (nesting_fields fs) h)
      (nesting_fields-push fs k v d (second_of (nesting u) (nesting_fields fs) h) w)
  where
    first_of : (a b : ℕ) → d + max (suc a) b ≤ max_depth → suc d + a ≤ max_depth
    first_of a b e = ground arith

    second_of : (a b : ℕ) → d + max (suc a) b ≤ max_depth → d + b ≤ max_depth
    second_of a b e = ground arith

-- A field is inserted where its key is new, and the object stays one.
insert_at-Yields :
    (at_key : Text) (d : ℕ) (fs : Fields) (k : Text) (v : Value)
    → IsObject d fs
    → WellFormed v
    → suc d + nesting v ≤ max_depth
    → Yields (IsObject d) (insert_at at_key fs k v)
insert_at-Yields at_key d fs k v h w m = elim (Result-cases (insert fs k v)) [
  | inl (gs, e) ↦
      let (fresh, same) = insert-eq-ok fs k v e in
      rw e (
        Yields-ok (IsObject d) gs (
          subst (IsObject d) (sym same) (
            push-Distinct fs k v h.0 fresh,
            WellFormedFields-push fs k v h.1 w,
            nesting_fields-push fs k v d h.2 m,
          )))
  | inr (dup, e) ↦ rw e (Yields-fails _ _ _)
]

read_key-Yields : (s : Text) → Yields (Shorter (length s)) (read_key s)
unfolding read_key
read_key-Yields [] = Yields-fails _ _ _
read_key-Yields (c ∷ s) =
    if-Yields _ (c == 0x22) _ _ (read_string-Yields (c ∷ s)) (Yields-fails _ _ _)

next_field-Yields :
    (loop : Fields → Text → Parsed Fields) (d n : ℕ) (fs : Fields) (further : Bool) (r : Text)
    → IsObject d fs
    → length r < n
    → Yields (IsFields d (length r)) (loop fs r)
    → Yields (IsFields d n) (next_field loop fs (further, r))
next_field-Yields loop d n fs true r h l k =
    imp-Yields (IsFields d (length r)) _ (loop fs r) k (λ (gs, t) q. (q.0, omega arith))
next_field-Yields loop d n fs false r h l k = Yields-ok _ (fs, r) (h, l)

field_turn-Yields :
    (item : Text → Parsed Value) (loop : Fields → Text → Parsed Fields) (d : ℕ) (fs : Fields)
    (s : Text)
    → IsObject d fs
    → ((t : Text) → length t ≤ length s → Yields (IsValue (suc d) (length t)) (item t))
    → ((gs : Fields) (t : Text)
        → IsObject d gs
        → length t < length s
        → Yields (IsFields d (length t)) (loop gs t))
    → Yields (IsFields d (length s)) (field_turn item loop fs s)
unfolding field_turn
field_turn-Yields item loop d fs s o h k =
    bind-Yields (Shorter (length (skip_ws s))) _ (read_key (skip_ws s)) _
      (read_key-Yields (skip_ws s))
      (λ (key, s1) l1.
        bind-Yields (λ r. length r < length (skip_ws s1)) _ (expect b':' (skip_ws s1)) _
          (expect-Yields b':' (skip_ws s1))
          (λ s2 l2.
            let short : length (skip_ws s2) < length s =
              omega (arith, length-skip_ws s, length-skip_ws s1, length-skip_ws s2) in
            bind-Yields (IsValue (suc d) (length (skip_ws s2))) _ (item (skip_ws s2)) _
              (h (skip_ws s2) (omega arith))
              (λ (v, s3) q.
                bind-Yields (IsObject d) _ (insert_at (skip_ws s) fs key v) _
                  (insert_at-Yields (skip_ws s) d fs key v o q.0 q.1)
                  (λ gs g.
                    bind-Yields (λ (b, t). length t < length (skip_ws s3)) _
                      (separator b'}' expected_comma_or_brace (skip_ws s3)) _
                      (separator-Yields b'}' _ (skip_ws s3))
                      (λ (b, t) l.
                        let less : length t < length s = omega (arith, length-skip_ws s3) in
                        next_field-Yields loop d (length s) gs b t g less (k gs t g less))))))

mutual
  unfolding read_value

  pub read_value-Yields :
      (f d : ℕ) (s : Text)
      → suc (2 * length s) ≤ f
      → Yields (IsValue d (length s)) (read_value f d s)
  read_value-Yields zero d s h = elim h [ ]
  read_value-Yields (suc f) d s h = elim (Bool-cases (ltb max_depth d)) [
    | inl deep ↦ rw (read_value, deep) (Yields-fails _ _ _)
    | inr fits ↦
        rw (read_value, fits)
          (read_by_first-Yields (read_items f d) (read_fields f d) d s (ground arith)
            (λ t l. read_items-Yields f d t (ground arith) (omega arith))
            (λ t l. read_fields-Yields f d end t (tt, tt, ground arith) (omega arith)))
  ]

  read_items-Yields :
      (f d : ℕ) (s : Text)
      → d ≤ max_depth
      → suc (suc (2 * length s)) ≤ f
      → Yields (IsItems d (length s)) (read_items f d s)
  read_items-Yields zero d s m h = elim h [ ]
  read_items-Yields (suc f) d s m h =
      item_turn-Yields (read_value f (suc d)) (read_items f d) d s
        (λ t l. read_value-Yields f (suc d) t (omega arith))
        (λ t l. read_items-Yields f d t m (omega arith))

  read_fields-Yields :
      (f d : ℕ) (fs : Fields) (s : Text)
      → IsObject d fs
      → suc (suc (2 * length s)) ≤ f
      → Yields (IsFields d (length s)) (read_fields f d fs s)
  read_fields-Yields zero d fs s o h = elim h [ ]
  read_fields-Yields (suc f) d fs s o h =
      field_turn-Yields (read_value f (suc d)) (read_fields f d) d fs s o
        (λ t l. read_value-Yields f (suc d) t (omega arith))
        (λ gs t o' l. read_fields-Yields f d gs t o' (omega arith))
