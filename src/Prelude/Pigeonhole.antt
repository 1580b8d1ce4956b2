-- ===== src/Prelude/Pigeonhole.antt =====
-- A list that holds every number of a range is as long as the range.
use anago.Prelude.Lists.{length}
use anago.Prelude.Tests.{nat_beq, if◌then◌else◌}
use anago.Prelude.Equal.{contains, nat_eq}
use Prim.Native.Nat.{ℕ, zero, suc, ◌+◌, ◌≤◌, ◌<◌}
use mathlib.Core.Path.{◌≡◌}
use mathlib.Core.Bool.{true}
use mathlib.Core.Logic.{◌≢◌}
use mathlib.Core.List.{List, [], ◌∷◌}
use native.Mathlib.Omega.{arith}

-- The list without the first `a`.
remove : ℕ → List ℕ → List ℕ
remove a [] = []
remove a (x ∷ xs) = if nat_beq x a then xs else x ∷ remove a xs

length-remove :
    (a : ℕ) (xs : List ℕ) → contains xs a ≡ true → suc (length (remove a xs)) ≡ length xs
unfolding remove
length-remove a [] h = ground arith
length-remove a (x ∷ xs) h = ground (arith, length-remove a xs)

contains-remove :
    (a b : ℕ) (xs : List ℕ) → a ≢ b → contains xs b ≡ true → contains (remove a xs) b ≡ true
unfolding remove
contains-remove a b [] n h = ground arith
contains-remove a b (x ∷ xs) n h = ground (arith, contains-remove a b xs n)

pub length_covering :
    (n lo : ℕ) (xs : List ℕ)
    → ((m : ℕ) → lo ≤ m → m < lo + n → contains xs m ≡ true)
    → n ≤ length xs
length_covering zero lo xs h = omega arith
length_covering (suc n) lo xs h = omega (
  arith,
  length-remove lo xs (h lo (omega arith) (omega arith)),
  length_covering n (lo + 1) (remove lo xs)
      (λ m p q. contains-remove lo m xs (omega arith) (h m (omega arith) (omega arith))),
)
