-- ===== src/Name/Ascii.antt =====
-- The ASCII part of Rust's tables, for runs.
use anago.Prelude.{ℕ, ◌≡◌, ◌≢◌, refl, [], ◌∷◌, true, false, arith, map}
use anago.Text.{Text, is_ascii_alphanumeric, to_ascii_lowercase, is_whitespace}
use anago.Name.{Unicode}
use anago.Name.Canonical.{IsUnicode}

abbrev pub ascii : Unicode
ascii = record { is_alphanumeric = is_ascii_alphanumeric; to_lowercase = map to_ascii_lowercase }

map-to_ascii_lowercase_idem :
    (s : Text) → map to_ascii_lowercase (map to_ascii_lowercase s) ≡ map to_ascii_lowercase s
map-to_ascii_lowercase_idem [] = refl
map-to_ascii_lowercase_idem (c ∷ cs) = ground (arith, map-to_ascii_lowercase_idem cs)

map-ne : (s : Text) → s ≢ [] → map to_ascii_lowercase s ≢ []
map-ne [] h e = h e
map-ne (c ∷ cs) h e = ground arith

alphanumeric-is_whitespace : (c : ℕ) → is_ascii_alphanumeric c ≡ true → is_whitespace c ≡ false
unfolding is_whitespace
alphanumeric-is_whitespace c h = ground arith

pub ascii-IsUnicode : IsUnicode ascii
ascii-IsUnicode = record {
  lower_idem = map-to_ascii_lowercase_idem;
  lower_ne = map-ne;
  whitespace = alphanumeric-is_whitespace;
}
