-- ===== src/Token/Compare.antt =====
-- The comparison of token hashes (crates/anago-core/src/token.rs).
use anago.Prelude.{
  ℕ, ◌≡◌, refl, subst, ◌↔◌, true, List, [], ◌∷◌, arith, nat_eq, length, bit_or, bit_xor,
}
use anago.Prelude.Bits.{bit_or-eq-zero, bit_xor-eq-zero, bit_xor_self}
use anago.Token.{TokenHash, diff_loop, constant_time_eq, matches}

diff_loop-eq-zero :
    (diff : ℕ) (a b : List ℕ) → length a ≡ length b → diff_loop diff a b ≡ 0 → (diff ≡ 0) × (a ≡ b)
unfolding diff_loop
diff_loop-eq-zero diff [] [] n h = (h, refl)
diff_loop-eq-zero diff [] (y ∷ ys) n h = absurd (ground arith)
diff_loop-eq-zero diff (x ∷ xs) [] n h = absurd (ground arith)
diff_loop-eq-zero diff (x ∷ xs) (y ∷ ys) n h =
    let (joined, rest) = diff_loop-eq-zero (bit_or diff (bit_xor x y)) xs ys (ground arith) h in
    let (before, here) = bit_or-eq-zero diff (bit_xor x y) joined in
    (before, cc (bit_xor-eq-zero x y here, rest))

diff_loop_self : (a : List ℕ) → diff_loop 0 a a ≡ 0
unfolding diff_loop
diff_loop_self [] = refl
diff_loop_self (x ∷ xs) = rw bit_xor_self (diff_loop_self xs)

-- The comparison that never returns early is equality: of any two byte strings.
pub constant_time_eq_iff : (a b : List ℕ) → (constant_time_eq a b ≡ true) ↔ (a ≡ b)
unfolding constant_time_eq
constant_time_eq_iff a b = (
  λ h. (diff_loop-eq-zero 0 a b (ground arith) (ground arith)).1,
  λ h. subst (λ c. constant_time_eq a c ≡ true) h (ground (arith, diff_loop_self a)),
)

-- Two hashes match exactly if they are the same hash.
pub matches_iff : (h k : TokenHash) → (matches h k ≡ true) ↔ (h ≡ k)
unfolding matches
matches_iff h k = ground (arith, constant_time_eq_iff h.hex k.hex)
