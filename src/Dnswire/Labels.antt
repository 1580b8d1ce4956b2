-- ===== src/Dnswire/Labels.antt =====
-- The labels of a name in a DNS message (crates/anago-core/src/dnswire.rs): the loop of `read_name`
-- takes in what `encode_labels` writes.
use mathlib.Core.List.{append_assoc}
use anago.Prelude.{
  ℕ, zero, suc, ◌+◌, ◌-◌, ◌<◌, ◌≡◌, refl, ap, ◌∙◌, subst, true, false, List, [], ◌∷◌, ◌++◌, none,
  some, arith, bit_and, leb, ltb, nat_eq, nat_beq, ◌==◌, length, length-append, get_elem?, take,
  drop, all, ok, >>=-eq-ok, Bool-cases, inl, inr,
}
use anago.Prelude.Bits.{below, below_sound}
use anago.Text.{Text}
use anago.Dnswire.{Bytes, split_dots, encode_label, encode_labels, slice, push_label, name_loop}

-- `String::from_utf8_lossy` leaves ASCII as it is.
pub record IsLossy (lossy : Bytes → Text) : Type 0 where
  pub ascii_eq : (s : Text) → all (λ c. ltb c 0x80) s ≡ true → lossy s ≡ s

get_elem?-middle :
    (pre : Bytes) (x : ℕ) (post : Bytes) → get_elem? (pre ++ x ∷ post) (length pre) ≡ some x
get_elem?-middle [] x post = refl
get_elem?-middle (y ∷ pre) x post = get_elem?-middle pre x post

drop-prefix : (pre post : Bytes) → drop (length pre) (pre ++ post) ≡ post
drop-prefix [] post = refl
drop-prefix (y ∷ pre) post = drop-prefix pre post

take-prefix : (pre post : Bytes) → take (length pre) (pre ++ post) ≡ pre
take-prefix [] post = refl
take-prefix (y ∷ pre) post = ap (◌∷◌ y) (take-prefix pre post)

slice-middle :
    (pre label post : Bytes)
    → slice (pre ++ (label ++ post)) (length pre) (length pre + length label) ≡ some label
slice-middle pre label post =
    let n : length pre + length label - length pre ≡ length label = omega arith in
    let whole = length-append pre (label ++ post) in
    let part = length-append label post in
    let fits : leb (length pre + length label) (length (pre ++ (label ++ post))) ≡ true =
      ground (arith, whole, part) in
    rw (slice, fits, n, drop-prefix pre (label ++ post), take-prefix label post) refl

-- A length byte below 64 is no pointer.
plain_table : below 64 (λ x. nat_beq (bit_and x 0xc0) 0) ≡ true
unfolding below
plain_table = refl

plain_lem : (x : ℕ) → x < 64 → (bit_and x 0xc0 == 0) ≡ true
plain_lem x h = below_sound 64 _ x plain_table h

-- The names that the labels add.
abbrev pub push_all : Text → List Text → Text
push_all name [] = name
push_all name (l ∷ ls) = push_all (push_label name l) ls

abbrev pub joined : Text → List Text → Text
joined l [] = l
joined l (m ∷ ls) = l ++ (b'.' ∷ joined m ls)

joined_cons : (c : ℕ) (l : Text) (ls : List Text) → joined (c ∷ l) ls ≡ c ∷ joined l ls
joined_cons c l [] = refl
joined_cons c l (m ∷ ls) = refl

pub join_split : (s : Text) → joined (split_dots s).0 (split_dots s).1 ≡ s
join_split [] = refl
join_split (c ∷ s) = elim (Bool-cases (c == b'.')) [
  | inl e ↦ rw e (let dot : c ≡ b'.' = ground arith in cc (dot, join_split s))
  | inr e ↦ rw e (joined_cons c (split_dots s).0 (split_dots s).1 ∙ ap (◌∷◌ c) (join_split s))
]

encode_label-eq-ok :
    (l : Text) {first : Bytes}
    → encode_label l ≡ ok first
    → (first ≡ length l ∷ l) × (0 < length l) × (length l < 64)
encode_label-eq-ok [] h = absurd (ground arith)
encode_label-eq-ok (c ∷ l) h = (ground arith, omega arith, ground arith)

module _ (lossy : Bytes → Text) (laws : IsLossy lossy) where
  -- One label, at the end of what was read.
  one_label :
      (pre label post : Bytes) (name : Text) (f : ℕ)
      → all (λ c. ltb c 0x80) label ≡ true
      → 0 < length label
      → length label < 64
      → name_loop lossy (pre ++ (length label ∷ (label ++ post))) (suc f) name (length pre) none 0
        ≡ name_loop lossy
            (pre ++ (length label ∷ (label ++ post)))
            f
            (push_label name label)
            (length pre + 1 + length label)
            none
            0
  unfolding name_loop
  one_label pre label post name f a p h =
      let message = pre ++ (length label ∷ (label ++ post)) in
      let nz : (length label == 0) ≡ false = ground arith in
      let byte = length label ∷ [] in
      let size : length (pre ++ byte) ≡ length pre + 1 = length-append pre byte in
      let s : slice message (length pre + 1) (length pre + 1 + length label) ≡ some label =
        subst (λ n. slice message n (n + length label) ≡ some label) size
          (subst
            (λ m. slice m (length (pre ++ byte)) (length (pre ++ byte) + length label) ≡ some label)
            (append_assoc pre byte (label ++ post)) (slice-middle (pre ++ byte) label post)) in
      rw
        (
          name_loop,
          get_elem?-middle pre (length label) (label ++ post),
          plain_lem (length label) h,
          nz,
          s,
          laws.ascii_eq label a,
        )
        refl

  last_label :
      (pre post : Bytes) (name : Text) (f : ℕ)
      → name_loop lossy (pre ++ (0 ∷ post)) (suc f) name (length pre) none 0
        ≡ ok (name, length pre + 1)
  unfolding name_loop
  last_label pre post name f = rw (name_loop, get_elem?-middle pre 0 post) refl

  -- All the labels, which `encode_labels` accepts.
  pub all_labels :
      (ls : List Text) (wire pre post : Bytes) (name : Text) (f : ℕ)
      → encode_labels ls ≡ ok wire
      → all (all (λ c. ltb c 0x80)) ls ≡ true
      → length wire < f
      → name_loop lossy (pre ++ (wire ++ (0 ∷ post))) f name (length pre) none 0
        ≡ ok (push_all name ls, length pre + (length wire + 1))
  unfolding encode_labels
  all_labels ls wire pre post name zero e a h = elim h [ ]
  all_labels [] wire pre post name (suc f) e a h =
      let empty : wire ≡ [] = ground arith in rw empty (last_label pre post name f)
  all_labels (l ∷ ls) wire pre post name (suc f) e a h =
      let (first, label_ok, more) = >>=-eq-ok (encode_label l) _ e in
      let (rest, rest_ok, whole) = >>=-eq-ok (encode_labels ls) _ more in
      let (bytes, some_chars, short) = encode_label-eq-ok l label_ok in
      let post' = rest ++ (0 ∷ post) in
      let message = pre ++ (length l ∷ (l ++ post')) in
      let at = length pre + 1 + length l in
      let spelt : wire ≡ (length l ∷ l) ++ rest = ground arith in
      let same : pre ++ (wire ++ (0 ∷ post)) ≡ message =
        rw spelt (ap (λ t. pre ++ (length l ∷ t)) (append_assoc l rest (0 ∷ post))) in
      let size : length (pre ++ (length l ∷ l)) ≡ at =
        omega (arith, length-append pre (length l ∷ l)) in
      let total : at + (length rest + 1) ≡ length pre + (length wire + 1) =
        omega (arith, ap length spelt, length-append l rest) in
      let less : length rest < f = omega (arith, ap length spelt, length-append l rest) in
      let later =
        all_labels ls rest (pre ++ (length l ∷ l)) post (push_label name l) f rest_ok (ground arith)
          less in
      let moved : name_loop lossy message f (push_label name l) at none 0
          ≡ ok (push_all (push_label name l) ls, at + (length rest + 1)) =
        subst
          (λ n.
            name_loop lossy message f (push_label name l) n none 0
            ≡ ok (push_all (push_label name l) ls, n + (length rest + 1)))
          size
          (subst
            (λ m.
              name_loop lossy m f (push_label name l) (length (pre ++ (length l ∷ l))) none 0
              ≡ ok (
                push_all (push_label name l) ls,
                length (pre ++ (length l ∷ l)) + (length rest + 1),
              ))
            (append_assoc pre (length l ∷ l) post') later) in
      rw (same, one_label pre l post' name f (ground arith) some_chars short, moved, total) refl
