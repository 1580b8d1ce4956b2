-- ===== src/Dnswire/Strings.antt =====
-- The character strings of a text record (crates/anago-core/src/dnswire.rs).
use anago.Prelude.{
  ℕ, zero, suc, ◌≤◌, ◌≡◌, refl, ap, [], ◌∷◌, ◌++◌, arith, nat_eq, list_eq, length, take, drop,
}
use anago.Text.{Text}
use anago.Dnswire.{Bytes}
use anago.Dnswire.Answer.{strings_loop, read_character_strings}

length-drop_le : (n : ℕ) (xs : Bytes) → length (drop n xs) ≤ length xs
length-drop_le zero xs = omega arith
length-drop_le (suc n) [] = omega arith
length-drop_le (suc n) (x ∷ xs) = omega (arith, length-drop_le n xs)

module _ (lossy : Bytes → Text) where
  -- A character string is its length, that many bytes, and the strings behind it: the fuel of the
  -- loop makes no difference.
  strings_fuel :
      (f g : ℕ) (rdata : Bytes)
      → length rdata ≤ f
      → length rdata ≤ g
      → strings_loop lossy f rdata ≡ strings_loop lossy g rdata
  unfolding strings_loop
  strings_fuel zero zero rdata h k = refl
  strings_fuel zero (suc g) [] h k = refl
  strings_fuel zero (suc g) (len ∷ rest) h k = elim h [ ]
  strings_fuel (suc f) zero [] h k = refl
  strings_fuel (suc f) zero (len ∷ rest) h k = elim k [ ]
  strings_fuel (suc f) (suc g) [] h k = refl
  strings_fuel (suc f) (suc g) (len ∷ rest) h k =
      let less = length-drop_le len rest in
      ap (λ t. lossy (take len rest) ++ t)
        (strings_fuel f g (drop len rest) (omega (arith, less)) (omega (arith, less)))

  pub character_strings-cons :
      (len : ℕ) (rest : Bytes)
      → read_character_strings lossy (len ∷ rest)
        ≡ lossy (take len rest) ++ read_character_strings lossy (drop len rest)
  unfolding strings_loop
  character_strings-cons len rest =
      ap (λ t. lossy (take len rest) ++ t)
        (strings_fuel (length rest) (length (drop len rest)) (drop len rest)
          (length-drop_le len rest) (omega arith))
