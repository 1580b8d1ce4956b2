-- ===== src/X509/Digits.antt =====
-- Two digits of a time (crates/anago-core/src/x509.rs).
use anago.Prelude.{
  ℕ, zero, suc, ◌+◌, ◌/◌, ◌%◌, ◌≤◌, ◌≡◌, refl, sym, ap, ◌∙◌, List, [], ◌∷◌, ◌++◌, some, nat_eq,
  drop, arith,
}
use anago.X509.{pair, number}

-- A number below 100 in two digits.
abbrev pub two : ℕ → List ℕ
two n = (b'0' + n / 10) ∷ (b'0' + n % 10) ∷ []

pub pair-two : (n : ℕ) (rest : List ℕ) → n ≤ 99 → pair (two n ++ rest) ≡ some n
pair-two n rest h = ground arith

pair-parts : (text : List ℕ) {n : ℕ} → pair text ≡ some n → (text ≡ two n ++ drop 2 text) × (n ≤ 99)
pair-parts [] h = absurd (ground arith)
pair-parts (a ∷ []) h = absurd (ground arith)
pair-parts (a ∷ b ∷ rest) {n} h =
    let tens : a ≡ b'0' + n / 10 = ground arith in
    let ones : b ≡ b'0' + n % 10 = ground arith in
    (ap (λ x. x ∷ b ∷ rest) tens ∙ ap (λ x. (b'0' + n / 10) ∷ x ∷ rest) ones, ground arith)

drop_nil : (n : ℕ) → drop {A = ℕ} n [] ≡ []
drop_nil zero = refl
drop_nil (suc n) = refl

drop-drop : (j k : ℕ) (xs : List ℕ) → drop j (drop k xs) ≡ drop (k + j) xs
drop-drop j zero xs = ap (λ n. drop n xs) (omega arith)
drop-drop j (suc k) [] = drop_nil j ∙ sym (drop_nil (suc k + j))
drop-drop j (suc k) (x ∷ xs) =
    let shift : suc (k + j) ≡ suc k + j = omega arith in
    drop-drop j k xs ∙ ap (λ n. drop n (x ∷ xs)) shift

pub number-parts :
    (text : List ℕ) (at : ℕ) {n : ℕ}
    → number text at ≡ some n
    → drop at text ≡ two n ++ drop (at + 2) text
unfolding number
number-parts text at {n} h =
    (pair-parts (drop at text) h).0 ∙ ap (λ t. two n ++ t) (drop-drop 2 at text)

pub number-le : (text : List ℕ) (at : ℕ) {n : ℕ} → number text at ≡ some n → n ≤ 99
unfolding number
number-le text at h = (pair-parts (drop at text) h).1
