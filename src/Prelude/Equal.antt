-- ===== src/Prelude/Equal.antt =====
-- Equality tests (`==` of a `PartialEq` type) as an instance, and what goes by them: `contains`,
-- lists without repetition.
use Prim.Native.Nat.{ℕ, zero, suc}
use mathlib.Core.Path.{◌≡◌, refl, subst}
use mathlib.Core.Logic.{◌↔◌, inl, inr}
use mathlib.Core.Bool.{Bool, true, false, ◌&&◌, ◌||◌}
use mathlib.Core.List.{List, [], ◌∷◌, ◌++◌}
use mathlib.Core.Option.{Option, none, some}
use native.Mathlib.Omega.{arith}
use anago.Prelude.Tests.{nat_beq, nat_beq_iff, Bool-cases}
use anago.Prelude.Lists.{All, get_elem?}

pub record Eq {ℓ} (A : Type ℓ) : Type ℓ where
  pub beq : A → A → Bool
  pub beq_iff : (x y : A) → (beq x y ≡ true) ↔ (x ≡ y)

instance abbrev pub nat_eq : Eq ℕ
nat_eq = record { beq_iff = nat_beq_iff; beq = nat_beq }

infix 50 ◌==◌
abbrev pub ◌==◌ {ℓ} : {A : Type ℓ} ⦃same : Eq A⦄ → A → A → Bool
◌==◌ ⦃same⦄ x y = same.beq x y

module _ {ℓ} {A : Type ℓ} ⦃e : Eq A⦄ where
  abbrev pub list_beq : List A → List A → Bool
  list_beq [] [] = true
  list_beq [] (y ∷ ys) = false
  list_beq (x ∷ xs) [] = false
  list_beq (x ∷ xs) (y ∷ ys) = (x == y) && list_beq xs ys

  pub list_beq_iff : (xs ys : List A) → (list_beq xs ys ≡ true) ↔ (xs ≡ ys)
  list_beq_iff [] [] = ground arith
  list_beq_iff [] (y ∷ ys) = ground arith
  list_beq_iff (x ∷ xs) [] = ground arith
  list_beq_iff (x ∷ xs) (y ∷ ys) = ground (arith, list_beq_iff xs ys, e.beq_iff x y)

  abbrev pub option_beq : Option A → Option A → Bool
  option_beq none none = true
  option_beq none (some y) = false
  option_beq (some x) none = false
  option_beq (some x) (some y) = x == y

  pub option_beq_iff : (x y : Option A) → (option_beq x y ≡ true) ↔ (x ≡ y)
  option_beq_iff none none = ground arith
  option_beq_iff none (some y) = ground arith
  option_beq_iff (some x) none = ground arith
  option_beq_iff (some x) (some y) = ground (arith, e.beq_iff x y)

  -- `xs.contains(&a)`.
  abbrev pub contains : List A → A → Bool
  contains [] a = false
  contains (x ∷ xs) a = (x == a) || contains xs a

  -- No element stands twice.
  abbrev pub Distinct : List A → Type 0
  Distinct [] = Unit
  Distinct (x ∷ xs) = (contains xs x ≡ false) × Distinct xs

instance abbrev pub list_eq {ℓ} : {A : Type ℓ} ⦃e : Eq A⦄ → Eq (List A)
list_eq ⦃e⦄ = record { beq = list_beq; beq_iff = list_beq_iff }

instance abbrev pub option_eq {ℓ} : {A : Type ℓ} ⦃e : Eq A⦄ → Eq (Option A)
option_eq ⦃e⦄ = record { beq = option_beq; beq_iff = option_beq_iff }

module _ {ℓ} {A : Type ℓ} ⦃e : Eq A⦄ where
  pub contains-append :
      (xs ys : List A) (a : A) → contains (xs ++ ys) a ≡ (contains xs a || contains ys a)
  contains-append [] ys a = refl
  contains-append (x ∷ xs) ys a = ground (arith, contains-append xs ys a)

  -- An element that is not there yet can be appended.
  pub Distinct-snoc :
      (xs : List A) (a : A) → Distinct xs → contains xs a ≡ false → Distinct (xs ++ a ∷ [])
  Distinct-snoc [] a d h = (refl, tt)
  Distinct-snoc (x ∷ xs) a d h = (
    ground (arith, contains-append xs (a ∷ []) x, e.beq_iff a x, e.beq_iff x a),
    Distinct-snoc xs a d.1 (ground arith),
  )

  -- In a list without repetition the part before an element does not have it.
  pub Distinct-middle :
      (xs : List A) (a : A) (ys : List A) → Distinct (xs ++ (a ∷ ys)) → contains xs a ≡ false
  Distinct-middle [] a ys h = refl
  Distinct-middle (x ∷ xs) a ys h = ground (
    arith,
    Distinct-middle xs a ys h.1,
    contains-append xs (a ∷ ys) x,
    e.beq_iff x a,
    e.beq_iff a x,
  )

module _ {ℓ} {A : Type ℓ} ⦃e : Eq A⦄ where
  pub contains_self : (a : A) (xs : List A) → contains (a ∷ xs) a ≡ true
  contains_self a xs = ground (arith, e.beq_iff a a)

  -- What holds of every element holds of one that is there.
  pub All-contains {κ} :
      (P : A → Type κ) (xs : List A) (a : A) → All P xs → contains xs a ≡ true → P a
  All-contains P [] a h k = absurd (ground arith)
  All-contains P (x ∷ xs) a h k = elim (Bool-cases (e.beq x a)) [
    | inl same ↦ subst P ((e.beq_iff x a).0 same) h.0
    | inr other ↦ All-contains P xs a h.1 (ground arith)
  ]

  pub get_elem?-contains :
      (xs : List A) (i : ℕ) {a : A} → get_elem? xs i ≡ some a → contains xs a ≡ true
  get_elem?-contains [] i h = ground arith
  get_elem?-contains (x ∷ xs) zero {a} h = ground (arith, e.beq_iff x a)
  get_elem?-contains (x ∷ xs) (suc i) h = ground (arith, get_elem?-contains xs i h)
