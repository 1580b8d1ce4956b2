-- ===== src/Json/Containers.antt =====
-- What the JSON parser makes of arrays and of the first character of a value
-- (crates/anago-core/src/json.rs), given what its loops yield.
use anago.Prelude.{
  ℕ, suc, ◌+◌, ◌≤◌, ◌<◌, ◌≡◌, refl, sym, subst, Bool, true, false, [], ◌∷◌, arith, nat_eq, list_eq,
  ◌==◌, ◌||◌, length, ok, err, Distinct,
}
use anago.Text.{Text, is_digit}
use anago.Json.{Value, null, bool, str, arr, obj, Items, nil, cons, Fields, end}
use anago.Json.Read.{
  max_depth, Problem, failed, out_of_fuel, Parsed, skip_ws, expect, read_string, read_number,
  read_literal, expected_comma_or_bracket,
}
use anago.Json.Parse.{
  map_ok, separator, array_rest, read_array, object_rest, read_object, read_by_first, next_item,
  item_turn,
}
use anago.Json.Valid.{
  WellFormed, WellFormedItems, WellFormedFields, nesting, nesting_items, nesting_fields, max,
}
use anago.Json.Objects.{keys}
use anago.Json.Escapes.{read_string-Yields}
use anago.Json.Atoms.{IsNumber, read_literal-Yields, read_number-Yields}
use anago.Json.Yields.{
  Yields, Yields-ok, Yields-fails, bind-Yields, imp-Yields, if-Yields, length-skip_ws,
  expect-Yields, Shorter,
}

-- A value at a depth, items and fields inside an array or object at it, and what they leave.
abbrev pub IsValue : ℕ → ℕ → Value × Text → Type 0
IsValue d n (v, r) = WellFormed v × (d + nesting v ≤ max_depth) × (length r < n)

abbrev pub IsItems : ℕ → ℕ → Items × Text → Type 0
IsItems d n (vs, r) = WellFormedItems vs × (d + nesting_items vs ≤ max_depth) × (length r < n)

abbrev pub IsObject : ℕ → Fields → Type 0
IsObject d fs = Distinct (keys fs) × WellFormedFields fs × (d + nesting_fields fs ≤ max_depth)

abbrev pub IsFields : ℕ → ℕ → Fields × Text → Type 0
IsFields d n (fs, r) = IsObject d fs × (length r < n)

map_ok-Yields :
    {A B : Type 0} (P : A × Text → Type 0) (Q : B × Text → Type 0) (f : A → B) (m : Parsed A)
    → Yields P m
    → ((a : A) (s : Text) → P (a, s) → Q (f a, s))
    → Yields Q (map_ok f m)
unfolding Yields
map_ok-Yields P Q f (ok (a, s)) h k = k a s h
map_ok-Yields P Q f (err (failed p left)) h k = tt
map_ok-Yields P Q f (err out_of_fuel) h k = h

pub separator-Yields :
    (close : ℕ) (p : Problem) (s : Text)
    → Yields {A = Bool × Text} (λ (b, r). length r < length s) (separator close p s)
separator-Yields close p [] = Yields-fails _ _ _
separator-Yields close p (c ∷ s) =
    if-Yields _ (c == b',') _ _ (Yields-ok _ (true, s) (omega arith))
      (if-Yields _ (c == close) _ _ (Yields-ok _ (false, s) (omega arith)) (Yields-fails _ _ _))

module _ (d : ℕ) (s : Text) (h : d ≤ max_depth) where
  read_array-Yields :
      (loop : Text → Parsed Items)
      → ((t : Text) → length t < length s → Yields (IsItems d (length t)) (loop t))
      → Yields (IsValue d (length s)) (read_array loop s)
  unfolding read_array
  read_array-Yields loop k =
      bind-Yields (λ r. length r < length s) _ (expect b'[' s) _ (expect-Yields b'[' s)
        (λ r l. rest (skip_ws r) (omega (arith, length-skip_ws r)))
    where
      rest : (t : Text) → length t < length s → Yields (IsValue d (length s)) (array_rest loop t)
      rest [] l = map_ok-Yields _ _ arr (loop []) (k [] l) (λ vs r q. (q.0, q.1, omega arith))
      rest (c ∷ t) l =
          if-Yields _ (c == b']') _ _ (Yields-ok _ (arr nil, t) (tt, omega arith, omega arith))
            (map_ok-Yields _ _ arr (loop (c ∷ t)) (k (c ∷ t) l) (λ vs r q. (q.0, q.1, omega arith)))

  read_object-Yields :
      (loop : Fields → Text → Parsed Fields)
      → ((t : Text) → length t < length s → Yields (IsFields d (length t)) (loop end t))
      → Yields (IsValue d (length s)) (read_object loop s)
  unfolding read_object
  read_object-Yields loop k =
      bind-Yields (λ r. length r < length s) _ (expect b'{' s) _ (expect-Yields b'{' s)
        (λ r l. rest (skip_ws r) (omega (arith, length-skip_ws r)))
    where
      rest : (t : Text) → length t < length s → Yields (IsValue d (length s)) (object_rest loop t)
      rest [] l =
          map_ok-Yields _ _ obj (loop end []) (k [] l)
            (λ fs r q. ((q.0.0, q.0.1), q.0.2, omega arith))
      rest (c ∷ t) l =
          if-Yields _ (c == b'}') _ _
            (Yields-ok _ (obj end, t) ((tt, tt), omega arith, omega arith))
            (map_ok-Yields _ _ obj (loop end (c ∷ t)) (k (c ∷ t) l)
              (λ fs r q. ((q.0.0, q.0.1), q.0.2, omega arith)))

  literal_lem :
      (word : Text) (v : Value)
      → 0 < length word
      → WellFormed v
      → nesting v ≡ 0
      → Yields (IsValue d (length s)) (read_literal word v s)
  literal_lem word v l w n =
      imp-Yields _ _ (read_literal word v s) (read_literal-Yields word v s l) (λ (u, r) q. (
        subst WellFormed (sym q.0) w,
        subst (λ x. d + nesting x ≤ max_depth) (sym q.0) (omega arith),
        q.1,
      ))

  number_lem : Yields (IsValue d (length s)) (read_number s)
  number_lem =
      imp-Yields (IsNumber (length s)) _ (read_number s) (read_number-Yields s)
        (λ (u, r) (z, e, i, l). (
          subst WellFormed (sym e) i,
          subst (λ x. d + nesting x ≤ max_depth) (sym e) (omega arith),
          l,
        ))

  string_lem : Yields (IsValue d (length s)) (map_ok str (read_string s))
  string_lem =
      map_ok-Yields (Shorter (length s)) _ str (read_string s) (read_string-Yields s)
        (λ t r l. (tt, omega arith, l))

pub read_by_first-Yields :
    (items : Text → Parsed Items) (fields : Fields → Text → Parsed Fields) (d : ℕ) (s : Text)
    → d ≤ max_depth
    → ((t : Text) → length t < length s → Yields (IsItems d (length t)) (items t))
    → ((t : Text) → length t < length s → Yields (IsFields d (length t)) (fields end t))
    → Yields (IsValue d (length s)) (read_by_first items fields s)
unfolding read_by_first
read_by_first-Yields items fields d [] h k l = Yields-fails _ _ _
read_by_first-Yields items fields d (c ∷ s) h k l =
    let t = c ∷ s in
    if-Yields _ (c == b'{') _ _ (read_object-Yields d t h fields l) (
      if-Yields _ (c == b'[') _ _ (read_array-Yields d t h items k) (
        if-Yields _ (c == 0x22) _ _ (string_lem d t h) (
          if-Yields _ (c == b't') _ _ (literal_lem d t h _ (bool true) (omega arith) tt refl) (
            if-Yields _ (c == b'f') _ _ (literal_lem d t h _ (bool false) (omega arith) tt refl) (
              if-Yields _ (c == b'n') _ _ (literal_lem d t h _ null (omega arith) tt refl) (
                if-Yields _ ((c == b'-') || is_digit c) _ _ (number_lem d t h)
                  (Yields-fails _ _ _)))))))

pub nesting-max :
    (d a b : ℕ) → suc d + a ≤ max_depth → d + b ≤ max_depth → d + max (suc a) b ≤ max_depth
nesting-max d a b h k = ground arith

next_item-Yields :
    (loop : Text → Parsed Items) (d n : ℕ) (v : Value) (further : Bool) (r : Text)
    → WellFormed v
    → suc d + nesting v ≤ max_depth
    → length r < n
    → Yields (IsItems d (length r)) (loop r)
    → Yields (IsItems d n) (next_item loop v (further, r))
next_item-Yields loop d n v true r w m l h =
    map_ok-Yields (IsItems d (length r)) _ (cons v) (loop r) h
      (λ vs t q. ((w, q.0), nesting-max d (nesting v) _ m q.1, omega arith))
next_item-Yields loop d n v false r w m l h =
    Yields-ok _ (cons v nil, r) ((w, tt), nesting-max d (nesting v) 0 m (omega arith), l)

pub item_turn-Yields :
    (item : Text → Parsed Value) (loop : Text → Parsed Items) (d : ℕ) (s : Text)
    → ((t : Text) → length t ≤ length s → Yields (IsValue (suc d) (length t)) (item t))
    → ((t : Text) → length t < length s → Yields (IsItems d (length t)) (loop t))
    → Yields (IsItems d (length s)) (item_turn item loop s)
unfolding item_turn
item_turn-Yields item loop d s h k =
    bind-Yields (IsValue (suc d) (length (skip_ws s))) _ (item (skip_ws s)) _
      (h (skip_ws s) (length-skip_ws s))
      (λ (v, r) q.
        bind-Yields (λ (b, t). length t < length (skip_ws r)) _
          (separator b']' expected_comma_or_bracket (skip_ws r)) _
          (separator-Yields b']' _ (skip_ws r))
          (λ (b, t) l.
            let less : length t < length s =
              omega (arith, length-skip_ws r, length-skip_ws s, q.2) in
            next_item-Yields loop d (length s) v b t q.0 q.1 less (k t less)))
