-- ===== src/Code/Canonical.antt =====
-- Canonical join codes (crates/anago-core/src/code.rs): they are what `parse` and `from_indices`
-- return, and `parse` reads them back.
use anago.Prelude.{
  ℕ, suc, ◌≤◌, ◌<◌, ◌≡◌, refl, sym, ap, ◌∙◌, subst, true, false, List, [], ◌∷◌, ◌++◌, some, arith,
  nat_eq, length, take, drop, get_elem?, ok, all, All, All-contains, inl, inr, take-append-drop,
  get_elem?-contains, get_elem?-some, get_elem?-lt, Option-cases,
}
use anago.Text.{Text}
use anago.Code.{JoinCode, in_alphabet, is_separator, alphabet, format, parse, pick, from_indices}
use anago.Code.Shape.{significant, parse-significant_iff}

-- Eight characters of the alphabet, in two groups.
pub record IsCanonical (code : JoinCode) : Type 0 where
  pub chars : Text
  pub spelt : code ≡ record { text = format chars }
  pub eight : length chars ≡ 8
  pub known : all in_alphabet chars ≡ true

-- The characters of the alphabet stay as they are, and none is passed over.
in_alphabet_range : (c : ℕ) → in_alphabet c ≡ true → (b'2' ≤ c) × (c ≤ b'Z')
unfolding in_alphabet
in_alphabet_range c h = All-contains (λ x. (b'2' ≤ x) × (x ≤ b'Z')) alphabet c (omega arith) h

in_alphabet-is_separator : (c : ℕ) → in_alphabet c ≡ true → is_separator c ≡ false
unfolding is_separator
in_alphabet-is_separator c h = ground (arith, in_alphabet_range c h)

significant_self : (s : Text) → all in_alphabet s ≡ true → significant s ≡ s
unfolding significant
significant_self [] h = refl
significant_self (c ∷ cs) h =
    let here : in_alphabet c ≡ true = ground arith in
    ground (
      arith,
      in_alphabet_range c here,
      in_alphabet-is_separator c here,
      significant_self cs (ground arith),
    )

significant-append : (s t : Text) → significant (s ++ t) ≡ significant s ++ significant t
unfolding significant
significant-append [] t = refl
significant-append (c ∷ cs) t = ground (arith, significant-append cs t)

significant-hyphen : (t : Text) → significant (b'-' ∷ t) ≡ significant t
unfolding significant is_separator
significant-hyphen t = refl

-- The hyphen does not count.
significant-format :
    (chars : Text) → all in_alphabet chars ≡ true → significant (format chars) ≡ chars
unfolding format
significant-format chars h =
    significant-append (take 4 chars) (b'-' ∷ drop 4 chars)
    ∙ ap (◌++◌ (significant (take 4 chars))) (significant-hyphen (drop 4 chars))
    ∙ sym (significant-append (take 4 chars) (drop 4 chars))
    ∙ ap significant (take-append-drop 4 chars)
    ∙ significant_self chars h

parse-IsCanonical : (input : Text) {code : JoinCode} → parse input ≡ ok code → IsCanonical code
parse-IsCanonical input {code} h =
    let (n, known, spelt) = (parse-significant_iff input code).0 h in
    record { chars = significant input; spelt = spelt; eight = n; known = known }

IsCanonical-parse : (code : JoinCode) → IsCanonical code → parse code.text ≡ ok code
IsCanonical-parse code c =
    let same : significant code.text ≡ c.chars =
      ap (λ (x : JoinCode). significant x.text) c.spelt ∙ significant-format c.chars c.known in
    (parse-significant_iff code.text code).1 (
      ap length same ∙ c.eight,
      ap (all in_alphabet) same ∙ c.known,
      c.spelt ∙ ap (λ t. record { text = format t }) (sym same),
    )

-- The canonical form of a code reads back as the code, and what is read is canonical.
pub parse-text :
    (input : Text) {code : JoinCode}
    → parse input ≡ ok code
    → IsCanonical code × (parse code.text ≡ ok code)
parse-text input {code} h = let c = parse-IsCanonical input h in (c, IsCanonical-parse code c)

-- What the positions pick, one character of the alphabet for each.
record IsPicked (indices : List ℕ) (chars : Text) : Type 0 where
  known : all in_alphabet chars ≡ true
  as_many : length chars ≡ length indices
  in_range : All (λ i. i < 30) indices

in_alphabet-picked : (i : ℕ) {c : ℕ} → get_elem? alphabet i ≡ some c → in_alphabet c ≡ true
unfolding in_alphabet
in_alphabet-picked i e = get_elem?-contains alphabet i e

pick-IsPicked :
    (indices : List ℕ) {chars : Text} → pick indices ≡ some chars → IsPicked indices chars
unfolding pick
pick-IsPicked [] {chars} h =
    subst (IsPicked []) {x = []} (ground arith)
      (record { known = refl; as_many = refl; in_range = tt })
pick-IsPicked (i ∷ rest) {chars} h = elim (Option-cases (get_elem? alphabet i)) [
  | inl e ↦ absurd (ground arith)
  | inr (c, e) ↦ elim (Option-cases (pick rest)) [
    | inl f ↦ absurd (ground arith)
    | inr (cs, f) ↦
        let r = pick-IsPicked rest f in
        subst (IsPicked (i ∷ rest)) {x = c ∷ cs} (ground arith) (record {
          known = ground (arith, in_alphabet-picked i e, r.known);
          as_many = ap suc r.as_many;
          in_range = (get_elem?-lt alphabet i e, r.in_range);
        })
  ]
]

pick_total :
    (indices : List ℕ) → All (λ i. i < 30) indices → (chars : Text) × (pick indices ≡ some chars)
unfolding pick
pick_total [] h = ([], refl)
pick_total (i ∷ rest) h =
    let (c, e) = get_elem?-some alphabet i h.0 in
    let (cs, f) = pick_total rest h.1 in (c ∷ cs, rw (e, f))

from_indices-picked :
    (indices : List ℕ) {code : JoinCode}
    → from_indices indices ≡ some code
    → (chars : Text) × (pick indices ≡ some chars)
      × (length indices ≡ 8)
      × (code ≡ record { text = format chars })
unfolding from_indices
from_indices-picked indices h = elim (Option-cases (pick indices)) [
  | inl e ↦ absurd (ground arith)
  | inr (chars, e) ↦ (chars, e, ground arith, ground arith)
]

-- A code is made of eight positions in the alphabet only. It is canonical, and reads back.
pub from_indices-IsCanonical :
    (indices : List ℕ) {code : JoinCode}
    → from_indices indices ≡ some code
    → (length indices ≡ 8)
      × All (λ i. i < 30) indices
      × IsCanonical code
      × (parse code.text ≡ ok code)
from_indices-IsCanonical indices {code} h =
    let (chars, e, n, spelt) = from_indices-picked indices h in
    let r = pick-IsPicked indices e in
    let c : IsCanonical code = record {
      chars = chars;
      spelt = spelt;
      eight = r.as_many ∙ n;
      known = r.known;
    } in
    (n, r.in_range, c, IsCanonical-parse code c)

-- Eight positions in the alphabet always make a code.
pub from_indices_total :
    (indices : List ℕ)
    → length indices ≡ 8
    → All (λ i. i < 30) indices
    → (code : JoinCode) × (from_indices indices ≡ some code)
unfolding from_indices
from_indices_total indices n r =
    let (chars, e) = pick_total indices r in (record { text = format chars }, ground (arith, e))
