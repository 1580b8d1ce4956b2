-- ===== src/Json/Objects.antt =====
-- JSON objects (crates/anago-core/src/json.rs): keys, and which pairs can be inserted.
use anago.Prelude.{
  ◌≡◌, refl, ap, subst, ◌↔◌, false, true, List, [], ◌∷◌, ◌++◌, none, arith, list_eq, nat_eq,
  contains, Distinct, Distinct-middle, Distinct-snoc, ok, err, inl, inr, Bool-cases, Result-cases,
  Option-cases, list_beq,
}
use anago.Text.{Text}
use anago.Json.{Value, obj, Fields, end, field, get, push, insert, insert_all, try_obj}

abbrev pub keys : Fields → List Text
keys end = []
keys (field k v fs) = k ∷ keys fs

abbrev pub from_pairs : List (Text × Value) → Fields
from_pairs [] = end
from_pairs ((k, v) ∷ pairs) = field k v (from_pairs pairs)

abbrev pub append_fields : Fields → Fields → Fields
append_fields end gs = gs
append_fields (field k v fs) gs = field k v (append_fields fs gs)

pub get-none : (fs : Fields) (k : Text) → contains (keys fs) k ≡ false → get fs k ≡ none
get-none end k h = refl
get-none (field k' v fs) k h = ground (arith, get-none fs k)

pub none-get : (fs : Fields) (k : Text) → get fs k ≡ none → contains (keys fs) k ≡ false
none-get end k h = refl
none-get (field k' v fs) k h = elim (Bool-cases (list_beq k' k)) [
  | inl e ↦ absurd (ground arith)
  | inr e ↦ ground (arith, none-get fs k)
]

pub keys-push : (fs : Fields) (k : Text) (v : Value) → keys (push fs k v) ≡ keys fs ++ k ∷ []
keys-push end k v = refl
keys-push (field k' v' fs) k v = ap (◌∷◌ k') (keys-push fs k v)

pub append-push :
    (fs : Fields) (k : Text) (v : Value) (gs : Fields)
    → append_fields (push fs k v) gs ≡ append_fields fs (field k v gs)
append-push end k v gs = refl
append-push (field k' v' fs) k v gs = ap (field k' v') (append-push fs k v gs)

pub append_end : (fs : Fields) → append_fields fs end ≡ fs
append_end end = refl
append_end (field k v fs) = ap (field k v) (append_end fs)

append-snoc : (xs : List Text) (k : Text) (ys : List Text) → (xs ++ k ∷ []) ++ ys ≡ xs ++ (k ∷ ys)
append-snoc [] k ys = refl
append-snoc (x ∷ xs) k ys = ap (◌∷◌ x) (append-snoc xs k ys)

-- `insert` refuses the keys that are there, and puts the others at the end.
pub insert_fresh :
    (fs : Fields) (k : Text) (v : Value)
    → contains (keys fs) k ≡ false
    → insert fs k v ≡ ok (push fs k v)
unfolding insert
insert_fresh fs k v h = ground (arith, get-none fs k h)

pub insert-eq-ok :
    (fs : Fields) (k : Text) (v : Value) {gs : Fields}
    → insert fs k v ≡ ok gs
    → (contains (keys fs) k ≡ false) × (gs ≡ push fs k v)
unfolding insert
insert-eq-ok fs k v h = elim (Option-cases (get fs k)) [
  | inl e ↦ ground (arith, none-get fs k e)
  | inr (w, e) ↦ absurd (ground arith)
]

pub keys-push-append :
    (fs : Fields) (k : Text) (v : Value) (ks : List Text)
    → keys (push fs k v) ++ ks ≡ keys fs ++ (k ∷ ks)
keys-push-append fs k v ks = rw (keys-push fs k v) (append-snoc (keys fs) k ks)

pub push-Distinct :
    (fs : Fields) (k : Text) (v : Value)
    → Distinct (keys fs)
    → contains (keys fs) k ≡ false
    → Distinct (keys (push fs k v))
push-Distinct fs k v d h = rw (keys-push fs k v) (Distinct-snoc (keys fs) k d h)

keys-append : (fs gs : Fields) → keys (append_fields fs gs) ≡ keys fs ++ keys gs
keys-append end gs = refl
keys-append (field k v fs) gs = ap (◌∷◌ k) (keys-append fs gs)

insert_taken :
    (fs : Fields) (k : Text) (v : Value)
    → contains (keys fs) k ≡ true
    → insert fs k v ≡ err (record { key = k })
unfolding insert
insert_taken fs k v h = elim (Option-cases (get fs k)) [
  | inl e ↦ absurd (ground (arith, none-get fs k e))
  | inr (w, e) ↦ ground arith
]

insert_all-from :
    (fs : Fields) (pairs : List (Text × Value)) (gs : Fields)
    → Distinct (keys fs)
    → (insert_all fs pairs ≡ ok gs)
      ↔ ((gs ≡ append_fields fs (from_pairs pairs)) × Distinct (keys gs))
unfolding insert_all
insert_all-from fs [] gs d = (
  λ h.
      let e : fs ≡ gs = ground arith in
      (ground (arith, append_end fs), subst (λ x. Distinct (keys x)) e d),
  λ h. ground (arith, append_end fs, h.0),
)
insert_all-from fs ((k, v) ∷ pairs) gs d = elim (Bool-cases (contains (keys fs) k)) [
  | inl taken ↦ (
    λ h. absurd (ground (arith, insert_taken fs k v taken)),
    λ h.
        let middle : Distinct (keys fs ++ (k ∷ keys (from_pairs pairs))) =
          rw (← keys-append fs (field k v (from_pairs pairs)))
            (subst (λ x. Distinct (keys x)) h.0 h.1) in
        absurd (ground (arith, Distinct-middle (keys fs) k (keys (from_pairs pairs)) middle)),
  )
  | inr fresh ↦
      let rest = insert_all-from (push fs k v) pairs gs (push-Distinct fs k v d fresh) in
      rw (insert_fresh fs k v fresh, ← append-push fs k v (from_pairs pairs)) rest
]

-- Pairs make an object exactly if no key stands twice among them, and the object then has all of
-- them, in their order.
pub try_obj-eq-ok_iff :
    (pairs : List (Text × Value)) (v : Value)
    → (try_obj pairs ≡ ok v) ↔ ((v ≡ obj (from_pairs pairs)) × Distinct (keys (from_pairs pairs)))
try_obj-eq-ok_iff pairs v = (
  λ h. elim (Result-cases (insert_all end pairs)) [
    | inl (gs, e) ↦
        let r = (insert_all-from end pairs gs tt).0 e in
        (ground (arith, r), subst (λ x. Distinct (keys x)) r.0 r.1)
    | inr (d, e) ↦ absurd (ground arith)
  ],
  λ h. ground (arith, (insert_all-from end pairs (from_pairs pairs) tt).1 (refl, h.1), h.0),
)
