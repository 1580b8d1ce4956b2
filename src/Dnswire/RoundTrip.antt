-- ===== src/Dnswire/RoundTrip.antt =====
-- What `encode_name` writes is read back by `read_name` (crates/anago-core/src/dnswire.rs).
use mathlib.Core.List.{append_assoc}
use anago.Prelude.{
  ℕ, ◌+◌, ◌<◌, ◌≡◌, refl, ap, ◌∙◌, true, Bool, List, [], ◌∷◌, ◌++◌, arith, ltb, nat_eq, ◌==◌,
  length, length-append, all, ok, Bool-cases, inl, inr, Result-cases,
}
use anago.Text.{Text}
use anago.Dnswire.{
  Bytes, trim_dots, split_dots, encode_labels, encode_name, name_fuel, read_name, ends,
}
use anago.Dnswire.Labels.{IsLossy, join_split, all_labels, push_all, joined}

joined-append :
    (xs m : Text) (ls : List Text) → joined (xs ++ (b'.' ∷ m)) ls ≡ xs ++ (b'.' ∷ joined m ls)
joined-append xs m [] = refl
joined-append xs m (l ∷ ls) = append_assoc xs (b'.' ∷ m) (b'.' ∷ joined l ls)

push_all-joined : (c : ℕ) (s : Text) (ls : List Text) → push_all (c ∷ s) ls ≡ joined (c ∷ s) ls
push_all-joined c s [] = refl
push_all-joined c s (m ∷ ls) = push_all-joined c (s ++ (b'.' ∷ m)) ls ∙ joined-append (c ∷ s) m ls

push_all-whole :
    (l : Text) (ls : List Text) {w : Bytes}
    → encode_labels (l ∷ ls) ≡ ok w
    → push_all [] (l ∷ ls) ≡ joined l ls
unfolding encode_labels
push_all-whole [] ls h = absurd (ground arith)
push_all-whole (c ∷ s) ls h = push_all-joined c s ls

all-split_dots :
    (p : ℕ → Bool) (s : Text)
    → all p s ≡ true
    → all (all p) ((split_dots s).0 ∷ (split_dots s).1) ≡ true
all-split_dots p [] h = refl
all-split_dots p (c ∷ s) h = elim (Bool-cases (c == b'.')) [
  | inl e ↦ rw e (ground (arith, all-split_dots p s))
  | inr e ↦ rw e (ground (arith, all-split_dots p s))
]

-- What `encode_name` accepts: ASCII, in labels that it writes.
encode_name-eq-ok :
    (text : Text) {wire : Bytes}
    → encode_name text ≡ ok wire
    → (all (λ c. ltb c 0x80) (trim_dots text) ≡ true)
      × ((w : Bytes) × (encode_labels
              ((split_dots (trim_dots text)).0 ∷ (split_dots (trim_dots text)).1)
            ≡ ok w)
          × (wire ≡ ends w))
unfolding encode_name
encode_name-eq-ok text {wire} h =
    elim (Result-cases
      (encode_labels ((split_dots (trim_dots text)).0 ∷ (split_dots (trim_dots text)).1))) [
        | inl (w, e) ↦ let enc : wire ≡ ends w = ground arith in (ground arith, (w, e, enc))
        | inr (why, e) ↦ absurd (ground arith)
      ]

-- A name that can be asked about reads back from the question as it is, without the dots at its
-- end, at any place of a message; what follows it in the message does not matter. The bytes of a
-- label are read as UTF-8, which leaves ASCII as it is.
pub read_name-encode_name :
    (lossy : Bytes → Text)
    → IsLossy lossy
    → (pre post : Bytes) (text : Text) {wire : Bytes} → encode_name text ≡ ok wire
    → read_name lossy (pre ++ (wire ++ post)) (length pre)
      ≡ ok (trim_dots text, length pre + length wire)
unfolding read_name
read_name-encode_name lossy laws pre post text {wire} h =
    let (ascii, (w, labels, spelt)) = encode_name-eq-ok text h in
    let (l, ls) = split_dots (trim_dots text) in
    let message = pre ++ (w ++ (0 ∷ post)) in
    let same : pre ++ (wire ++ post) ≡ message =
      rw spelt (ap (λ t. pre ++ t) (append_assoc w (0 ∷ []) post)) in
    let enough : length w < name_fuel lossy message =
      omega (arith, length-append pre (w ++ (0 ∷ post)), length-append w (0 ∷ post)) in
    let name : push_all [] (l ∷ ls) ≡ trim_dots text =
      push_all-whole l ls labels ∙ join_split (trim_dots text) in
    let size : length pre + (length w + 1) ≡ length pre + length wire =
      omega (arith, ap length spelt, length-append w (0 ∷ [])) in
    let read =
      all_labels lossy laws (l ∷ ls) w pre post [] (name_fuel lossy message) labels
        (all-split_dots (λ c. ltb c 0x80) (trim_dots text) ascii) enough in
    rw same (read ∙ cc (name, size))
