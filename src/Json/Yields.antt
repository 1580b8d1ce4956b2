-- ===== src/Json/Yields.antt =====
-- What a part of the JSON parser yields (crates/anago-core/src/json.rs): a property of its result, or
-- an error of the source, and never the end of the fuel.
use anago.Prelude.{
  ℕ, ◌+◌, ◌≤◌, ◌<◌, ◌≡◌, Bool, true, false, some, [], ◌∷◌, arith, nat_eq, ◌==◌, if◌then◌else◌,
  length, Result, ok, err, ◌>>=◌, Bool-cases, inl, inr,
}
use anago.Text.{Text, strip_prefix}
use anago.Json.Read.{Fault, failed, out_of_fuel, skip_ws, expect, Problem}

-- The result has the property, or is an error of the source.
unfoldable pub Yields : {A : Type 0} → (A → Type 0) → Result Fault A → Type 0
Yields P (ok a) = P a
Yields P (err (failed p left)) = Unit
Yields P (err out_of_fuel) = false ≡ true

pub Yields-ok : {A : Type 0} (P : A → Type 0) (a : A) → P a → Yields P (ok a)
unfolding Yields
Yields-ok P a h = h

pub Yields-fails :
    {A : Type 0} (P : A → Type 0) (p : Problem) (left : ℕ) → Yields P (err (failed p left))
unfolding Yields
Yields-fails P p left = tt

pub bind-Yields :
    {A B : Type 0} (P : A → Type 0) (Q : B → Type 0) (m : Result Fault A) (f : A → Result Fault B)
    → Yields P m
    → ((a : A) → P a → Yields Q (f a))
    → Yields Q (m >>= f)
unfolding Yields
bind-Yields P Q (ok a) f h k = k a h
bind-Yields P Q (err (failed p left)) f h k = tt
bind-Yields P Q (err out_of_fuel) f h k = h

pub imp-Yields :
    {A : Type 0} (P Q : A → Type 0) (m : Result Fault A)
    → Yields P m
    → ((a : A) → P a → Q a)
    → Yields Q m
unfolding Yields
imp-Yields P Q (ok a) h k = k a h
imp-Yields P Q (err (failed p left)) h k = tt
imp-Yields P Q (err out_of_fuel) h k = h

-- A test, whatever it is, chooses between two that yield.
pub if-Yields :
    {A : Type 0} (P : A → Type 0) (b : Bool) (m n : Result Fault A)
    → Yields P m
    → Yields P n
    → Yields P (if b then m else n)
if-Yields P true m n h k = h
if-Yields P false m n h k = k

-- Fewer characters are left.
abbrev pub Shorter : {A : Type 0} → ℕ → A × Text → Type 0
Shorter n (a, s) = length s < n

pub length-skip_ws : (s : Text) → length (skip_ws s) ≤ length s
unfolding skip_ws
length-skip_ws [] = omega arith
length-skip_ws (c ∷ s) = ground (arith, length-skip_ws s)

pub expect-Yields : (c : ℕ) (s : Text) → Yields (λ r. length r < length s) (expect c s)
unfolding Yields expect
expect-Yields c [] = tt
expect-Yields c (d ∷ s) = elim (Bool-cases (d == c)) [
  | inl e ↦ rw (e, expect) (omega arith)
  | inr e ↦ rw (e, expect) tt
]

pub strip_prefix-length :
    (p s : Text) {r : Text} → strip_prefix p s ≡ some r → length p + length r ≡ length s
strip_prefix-length [] s h = ground arith
strip_prefix-length (c ∷ p) [] h = absurd (ground arith)
strip_prefix-length (c ∷ p) (d ∷ s) {r} h = elim (Bool-cases (d == c)) [
  | inl e ↦
      let g : strip_prefix p s ≡ some r = ground arith in omega (arith, strip_prefix-length p s g)
  | inr e ↦ absurd (ground arith)
]
