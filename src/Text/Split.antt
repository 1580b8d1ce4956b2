-- ===== src/Text/Split.antt =====
-- `split_once`: where a separator stands, and the text put together again.
use anago.Prelude.{
  ℕ, ◌<◌, ◌≡◌, refl, false, [], ◌∷◌, ◌++◌, some, none, arith, ◌==◌, nat_eq, contains, Option-cases,
  Bool-cases, inl, inr,
}
use anago.Text.{Text, split_once}
use anago.Text.Decimal.{AllDigits}

pub split_once-append :
    (sep : ℕ) (l r : Text) → contains l sep ≡ false → split_once sep (l ++ sep ∷ r) ≡ some (l, r)
unfolding split_once
split_once-append sep [] r h = ground arith
split_once-append sep (c ∷ cs) r h = ground (arith, split_once-append sep cs r)

pub split_once-none : (sep : ℕ) (t : Text) → contains t sep ≡ false → split_once sep t ≡ none
unfolding split_once
split_once-none sep [] h = refl
split_once-none sep (c ∷ cs) h = ground (arith, split_once-none sep cs)

pub split_once-eq-some :
    (sep : ℕ) (t : Text) {l r : Text}
    → split_once sep t ≡ some (l, r)
    → (t ≡ l ++ sep ∷ r) × (contains l sep ≡ false)
unfolding split_once
split_once-eq-some sep [] h = ground arith
split_once-eq-some sep (c ∷ cs) {l} {r} h = elim (Bool-cases (c == sep)) [
  | inl here ↦ ground arith
  | inr further ↦ elim (Option-cases (split_once sep cs)) [
    | inl e ↦ ground arith
    | inr ((l', r'), e) ↦ ground (arith, split_once-eq-some sep cs e)
  ]
]

pub contains-digits : (t : Text) (sep : ℕ) → sep < b'0' → AllDigits t → contains t sep ≡ false
contains-digits [] sep h d = refl
contains-digits (c ∷ cs) sep h d = ground (arith, contains-digits cs sep h d.1)
