-- ===== src/X509/Elements.antt =====
-- The reader of DER elements (crates/anago-core/src/x509.rs).
use anago.Prelude.{
  ℕ, ◌+◌, ◌*◌, ◌^◌, ◌≤◌, ◌<◌, ◌≡◌, ◌⊎◌, List, [], ◌∷◌, ◌++◌, nat_eq, length, bit_and,
}

-- A number written as bytes, the high ones first.
abbrev pub big_endian : List ℕ → ℕ
big_endian [] = 0
big_endian (b ∷ bs) = b * 256 ^ length bs + big_endian bs

-- The length of the contents, as DER writes it: in one byte below 128, or in as many bytes as the
-- low seven bits of the first one count, one to four.
abbrev pub IsLength : List ℕ → ℕ → Type 0
IsLength [] len = ⊥
IsLength (first ∷ more) len =
    ((first < 0x80) × (more ≡ []) × (first ≡ len))
    ⊎ ((0x80 ≤ first)
        × (bit_and first 0x7f ≡ length more)
        × (1 ≤ length more)
        × (length more ≤ 4)
        × (big_endian more ≡ len))

-- An element at the front of some bytes: its tag, the length of its contents, all of the contents,
-- and the rest.
pub record Splits (bytes : List ℕ) (tag : ℕ) (contents rest : List ℕ) : Type 0 where
  pub len : List ℕ
  pub whole : bytes ≡ tag ∷ (len ++ (contents ++ rest))
  pub length_eq : IsLength len (length contents)
