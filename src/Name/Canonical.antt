-- ===== src/Name/Canonical.antt =====
-- Canonical device names (crates/anago-core/src/name.rs): they are what `parse` returns, and
-- `parse` returns them unchanged.
use anago.Prelude.{
  ℕ, ◌≤◌, ◌≡◌, ◌≢◌, refl, sym, ap, ◌∙◌, ◌↔◌, true, false, not, [], ◌∷◌, some, arith, nat_eq,
  list_eq, length, find, find-not_iff, all, ok, Option-cases, inl, inr,
}
use anago.Text.{Text, trim, last?, is_whitespace}
use anago.Text.Trim.{trim_self}
use anago.Name.{
  Unicode, DeviceName, is_allowed, check_edge, check_chars, first?, parse, on_reserved,
}

-- What the program relies on in Rust's tables: lower case is stable, a text does not vanish in
-- lower case, and no whitespace is a letter or digit.
pub record IsUnicode (u : Unicode) : Type 0 where
  pub lower_idem : (s : Text) → u.to_lowercase (u.to_lowercase s) ≡ u.to_lowercase s
  pub lower_ne : (s : Text) → s ≢ [] → u.to_lowercase s ≢ []
  pub whitespace : (c : ℕ) → u.is_alphanumeric c ≡ true → is_whitespace c ≡ false

-- The rules for a name.
pub record IsCanonical (u : Unicode) (n : DeviceName) : Type 0 where
  pub lower : u.to_lowercase n.text ≡ n.text
  pub short : length n.text ≤ 32
  pub allowed : all (is_allowed u) n.text ≡ true
  pub first : ℕ
  pub first_eq : first? n.text ≡ some first
  pub first_alphanumeric : u.is_alphanumeric first ≡ true
  pub last : ℕ
  pub last_eq : last? n.text ≡ some last
  pub last_alphanumeric : u.is_alphanumeric last ≡ true
  pub free : on_reserved n.text ≡ false

first?-some : (s : Text) → s ≢ [] → (c : ℕ) × (first? s ≡ some c)
first?-some [] h = absurd (h refl)
first?-some (c ∷ cs) h = (c, refl)

last?-some : (s : Text) → s ≢ [] → (c : ℕ) × (last? s ≡ some c)
last?-some [] h = absurd (h refl)
last?-some (c ∷ []) h = (c, refl)
last?-some (c ∷ d ∷ cs) h = last?-some (d ∷ cs) (λ e. ground arith)

trim_edges :
    (s : Text) {c d : ℕ}
    → first? s ≡ some c
    → is_whitespace c ≡ false
    → last? s ≡ some d
    → is_whitespace d ≡ false
    → trim s ≡ s
trim_edges [] p q r v = absurd (ground arith)
trim_edges (x ∷ xs) p q r v = trim_self x xs (ground (arith, p, q)) r v

length_ne : (s : Text) {c : ℕ} → first? s ≡ some c → length s ≢ 0
length_ne [] h = absurd (ground arith)
length_ne (x ∷ xs) h = omega arith

module _ (u : Unicode) (laws : IsUnicode u) where
  check_chars-ok : (name : Text) → check_chars u name ≡ ok tt → all (is_allowed u) name ≡ true
  unfolding check_chars
  check_chars-ok name h = elim (Option-cases (find (λ c. not (is_allowed u c)) name)) [
    | inl e ↦ (find-not_iff (is_allowed u) name).0 e
    | inr (c, e) ↦ absurd (ground arith)
  ]

  -- The tests that `parse` makes, one after the other.
  parse-tests :
      (input : Text) {n : DeviceName}
      → parse u input ≡ ok n
      → (n.text ≡ u.to_lowercase (trim input))
        × (trim input ≢ [])
        × (length n.text ≤ 32)
        × (check_chars u n.text ≡ ok tt)
        × (check_edge u (first? n.text) ≡ ok tt)
        × (check_edge u (last? n.text) ≡ ok tt)
        × (on_reserved n.text ≡ false)
  unfolding parse
  parse-tests input h = ground arith

  -- Every name that is accepted follows the rules, and is accepted again as it is.
  pub parse-IsCanonical : (input : Text) {n : DeviceName} → parse u input ≡ ok n → IsCanonical u n
  unfolding check_edge
  parse-IsCanonical input {n} h =
      let (spelt, filled, short, chars, start, end, free) = parse-tests input h in
      let ne : n.text ≢ [] = λ e. laws.lower_ne (trim input) filled (sym spelt ∙ e) in
      let (c, ec) = first?-some n.text ne in
      let (d, ed) = last?-some n.text ne in
      record {
        lower = ap u.to_lowercase spelt ∙ laws.lower_idem (trim input) ∙ sym spelt;
        short = short;
        allowed = check_chars-ok n.text chars;
        first = c;
        first_eq = ec;
        first_alphanumeric = ground (arith, ec, start);
        last = d;
        last_eq = ed;
        last_alphanumeric = ground (arith, ed, end);
        free = free;
      }

  trim-canonical : (n : DeviceName) → IsCanonical u n → trim n.text ≡ n.text
  trim-canonical n c =
      trim_edges n.text c.first_eq (laws.whitespace c.first c.first_alphanumeric) c.last_eq
        (laws.whitespace c.last c.last_alphanumeric)

  IsCanonical-parse : (n : DeviceName) → IsCanonical u n → parse u n.text ≡ ok n
  unfolding parse check_chars check_edge
  IsCanonical-parse n c = ground (
    arith,
    trim-canonical n c,
    c.lower,
    length_ne n.text c.first_eq,
    (find-not_iff (is_allowed u) n.text).1 c.allowed,
  )

  -- The names that `parse` returns are those that follow the rules, and it returns such a name as it
  -- is: to store a name and to read it again changes nothing.
  pub IsCanonical-iff-parse :
      (n : DeviceName)
      → (IsCanonical u n ↔ ((input : Text) × (parse u input ≡ ok n)))
        × (IsCanonical u n ↔ (parse u n.text ≡ ok n))
  IsCanonical-iff-parse n = (
    (λ c. (n.text, IsCanonical-parse n c), λ h. parse-IsCanonical h.0 h.1),
    (IsCanonical-parse n, parse-IsCanonical n.text),
  )
