-- ===== src/Json/Atoms.antt =====
-- What reading a literal or a number yields (crates/anago-core/src/json.rs).
use anago.Prelude.{
  ℕ, zero, suc, ◌+◌, ◌≤◌, ◌<◌, ◌≡◌, refl, Bool, true, false, none, some, [], ◌∷◌, arith, nat_eq,
  ◌==◌, length, ok, Option-cases, Bool-cases, inl, inr,
}
use anago.Prelude.I64.{IsI64}
use anago.Prelude.Int.{ℤ}
use anago.Text.{Text, is_digit, strip_prefix}
use anago.Text.Decimal.{value}
use anago.Json.{Value, int}
use anago.Json.Read.{
  read_literal, digits, in_range, read_digits, read_number, has_leading_zero, is_float_mark,
  fail_at, out_of_range,
}
use anago.Json.Yields.{Yields, Yields-ok, Yields-fails, if-Yields, strip_prefix-length}

pub read_literal-Yields :
    (word : Text) (v : Value) (s : Text)
    → 0 < length word
    → Yields (λ (w, r). (w ≡ v) × (length r < length s)) (read_literal word v s)
unfolding read_literal
read_literal-Yields word v s h = elim (Option-cases (strip_prefix word s)) [
  | inl e ↦ rw (read_literal, e) (Yields-fails _ _ _)
  | inr (r, e) ↦
      rw (read_literal, e) (Yields-ok _ (v, r) (refl, omega (arith, strip_prefix-length word s e)))
]

digits-length : (s : Text) → length (digits s).0 + length (digits s).1 ≡ length s
digits-length [] = refl
digits-length (c ∷ s) = elim (Bool-cases (is_digit c)) [
  | inl e ↦ rw e (omega (arith, digits-length s))
  | inr e ↦ rw e (omega arith)
]

in_range-IsI64 : (negative : Bool) (n : ℕ) {z : ℤ} → in_range negative n ≡ some z → IsI64 z
in_range-IsI64 false n h = ground arith
in_range-IsI64 true zero h = ground arith
in_range-IsI64 true (suc n) h = ground arith

-- An integer that the parser reads is in the range of `i64`.
abbrev pub IsNumber : ℕ → Value × Text → Type 0
IsNumber n (v, r) = (z : ℤ) × (v ≡ int z) × IsI64 z × (length r < n)

in_range-Yields :
    (negative : Bool) (m n : ℕ) (start r : Text)
    → length r < n
    → Yields {A = Value × Text}
        (IsNumber n)
        (elim (in_range negative m) [ some z ↦ ok (int z, r) | none ↦ fail_at out_of_range start ])
unfolding Yields
in_range-Yields negative m n start r h = elim (Option-cases (in_range negative m)) [
  | inl e ↦ rw e tt
  | inr (z, e) ↦ rw e (z, refl, in_range-IsI64 negative m e, h)
]

read_digits-Yields :
    (negative : Bool) (start s : Text) (n : ℕ)
    → length s ≤ n
    → Yields (IsNumber n) (read_digits negative start s)
unfolding read_digits
read_digits-Yields negative start s n h =
    let (ds, r) = digits s in
    elim (Bool-cases (length ds == 0)) [
      | inl e ↦ rw (read_digits, e) (Yields-fails _ _ _)
      | inr e ↦
          let less : length r < n = ground (arith, digits-length s) in
          rw (read_digits, e)
            (if-Yields (IsNumber n) (has_leading_zero ds) _ _ (Yields-fails _ _ _) (
              if-Yields (IsNumber n) (is_float_mark r) _ _ (Yields-fails _ _ _)
                (in_range-Yields negative (value ds) n start r less)))
    ]

pub read_number-Yields : (s : Text) → Yields (IsNumber (length s)) (read_number s)
unfolding read_number
read_number-Yields s = elim (Option-cases (strip_prefix (b'-' ∷ []) s)) [
  | inl e ↦ rw (read_number, e) (read_digits-Yields false s s (length s) (omega arith))
  | inr (r, e) ↦
      rw (read_number, e)
        (read_digits-Yields true s r (length s)
          (omega (arith, strip_prefix-length (b'-' ∷ []) s e)))
]
