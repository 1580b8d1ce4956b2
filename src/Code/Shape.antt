-- ===== src/Code/Shape.antt =====
-- The shape of join codes (crates/anago-core/src/code.rs): what `parse` and `from_indices` accept.
use anago.Prelude.{
  ℕ, ◌+◌, ◌≤◌, ◌≡◌, refl, sym, ap, ◌∙◌, ◌↔◌, true, false, [], ◌∷◌, ◌++◌, arith, ◌==◌, nat_eq,
  if◌then◌else◌, length, length-append, contains, ok, err, all, Bool-cases, inl, inr, ◌⊎◌,
  >>=-eq-ok, ◌≢◌, Result-cases, contains_self, subst, min,
}
use anago.Text.{Text, to_ascii_uppercase}
use mathlib.Core.List.{append-nil, append_assoc}
use anago.Code.{
  JoinCode, CodeError, bad_char, wrong_length, in_alphabet, is_separator, format, parse_loop, parse,
  code_len,
}

-- The characters of an input that count, in upper case.
unfoldable pub significant : Text → Text
significant [] = []
significant (c ∷ cs) =
    if is_separator c then significant cs else to_ascii_uppercase c ∷ significant cs

parse_loop-eq-ok :
    (input chars : Text) {r : Text}
    → length chars ≤ code_len
    → parse_loop input chars ≡ ok r
    → (r ≡ chars ++ significant input)
      × (all in_alphabet (significant input) ≡ true)
      × (length r ≤ code_len)
unfolding parse_loop significant
parse_loop-eq-ok [] chars h e = ground (arith, append-nil chars)
parse_loop-eq-ok (c ∷ cs) chars {r} h e = elim (Bool-cases (is_separator c)) [
  | inl skip ↦
      let next : parse_loop cs chars ≡ ok r = ground arith in
      ground (arith, parse_loop-eq-ok cs chars h next)
  | inr keep ↦
      let upper = to_ascii_uppercase c in
      let next : parse_loop cs (chars ++ upper ∷ []) ≡ ok r = ground arith in
      let room : length (chars ++ upper ∷ []) ≤ code_len =
        ground (arith, length-append chars (upper ∷ [])) in
      let (joined, inside, short) = parse_loop-eq-ok cs (chars ++ upper ∷ []) room next in
      ground (arith, joined, inside, short, append_assoc chars (upper ∷ []) (significant cs))
]

parse_loop_ok :
    (input chars : Text)
    → length chars + length (significant input) ≤ code_len
    → all in_alphabet (significant input) ≡ true
    → parse_loop input chars ≡ ok (chars ++ significant input)
unfolding parse_loop significant
parse_loop_ok [] chars h a = ground (arith, append-nil chars)
parse_loop_ok (c ∷ cs) chars h a = elim (Bool-cases (is_separator c)) [
  | inl skip ↦ ground (arith, parse_loop_ok cs chars)
  | inr keep ↦
      let upper = to_ascii_uppercase c in
      ground (
        arith,
        parse_loop_ok cs (chars ++ upper ∷ []),
        length-append chars (upper ∷ []),
        append_assoc chars (upper ∷ []) (significant cs),
      )
]

parse-parts :
    (input : Text) {code : JoinCode}
    → parse input ≡ ok code
    → (chars : Text) × (parse_loop input [] ≡ ok chars)
      × (length chars ≡ 8)
      × (code ≡ record { text = format chars })
unfolding parse
parse-parts input h =
    let (chars, e, rest) = >>=-eq-ok (parse_loop input []) _ h in
    (chars, e, ground (arith, rest), ground (arith, rest))

parse_ok :
    (input : Text)
    → length (significant input) ≡ 8
    → all in_alphabet (significant input) ≡ true
    → parse input ≡ ok (record { text = format (significant input) })
unfolding parse
parse_ok input n a = ground (arith, parse_loop_ok input [] (omega (arith, n)) a)

-- `parse` accepts an input exactly if the characters that count are eight of the alphabet, and the
-- code is those in two groups.
pub parse-significant_iff :
    (input : Text) (code : JoinCode)
    → (parse input ≡ ok code) ↔ (
        (length (significant input) ≡ 8)
        × (all in_alphabet (significant input) ≡ true)
        × (code ≡ record { text = format (significant input) }))
parse-significant_iff input code = (
  λ h.
      let (chars, e, n, c) = parse-parts input h in
      let (joined, inside, short) = parse_loop-eq-ok input [] (omega arith) e in
      (ap length (sym joined) ∙ n, inside, c ∙ ap (λ t. record { text = format t }) joined),
  λ h. parse_ok input h.0 h.1 ∙ ap ok (sym h.2),
)

-- What an error says of the input. The character is as it was typed, counts, and is one that the
-- alphabet lacks in upper case. The length is that of what counts, cut off at nine.
abbrev pub Explains : Text → CodeError → Type 0
Explains input (bad_char c) =
    (contains input c ≡ true)
    × (is_separator c ≡ false)
    × (in_alphabet (to_ascii_uppercase c) ≡ false)
Explains input (wrong_length n) = (n ≢ 8) × (n ≡ min (length (significant input)) 9)

-- The same inside the loop, which only ever stops at a ninth character.
abbrev LoopExplains : Text → Text → CodeError → Type 0
LoopExplains input chars (bad_char c) = Explains input (bad_char c)
LoopExplains input chars (wrong_length n) =
    (n ≡ 9) × (9 ≤ length chars + length (significant input))

LoopExplains-skip :
    (c : ℕ) (cs chars : Text) (e : CodeError)
    → is_separator c ≡ true
    → LoopExplains cs chars e
    → LoopExplains (c ∷ cs) chars e
unfolding significant
LoopExplains-skip c cs chars (bad_char d) s h = ground arith
LoopExplains-skip c cs chars (wrong_length n) s h = ground arith

LoopExplains-take :
    (c : ℕ) (cs chars : Text) (e : CodeError)
    → is_separator c ≡ false
    → LoopExplains cs (chars ++ to_ascii_uppercase c ∷ []) e
    → LoopExplains (c ∷ cs) chars e
unfolding significant
LoopExplains-take c cs chars (bad_char d) s h = ground arith
LoopExplains-take c cs chars (wrong_length n) s h =
    ground (arith, length-append chars (to_ascii_uppercase c ∷ []))

LoopExplains-stop :
    (c : ℕ) (cs chars : Text) (e : CodeError)
    → is_separator c ≡ false
    → (e ≡ bad_char c) × (in_alphabet (to_ascii_uppercase c) ≡ false)
      ⊎ (e ≡ wrong_length 9) × (length chars ≡ 8)
    → LoopExplains (c ∷ cs) chars e
unfolding significant
LoopExplains-stop c cs chars e s (inl (p, q)) =
    subst (LoopExplains (c ∷ cs) chars) (sym p) (contains_self c cs, s, q)
LoopExplains-stop c cs chars e s (inr (p, q)) =
    subst (LoopExplains (c ∷ cs) chars) (sym p) (refl, ground arith)

parse_loop-LoopExplains :
    (input chars : Text) {e : CodeError}
    → parse_loop input chars ≡ err e
    → LoopExplains input chars e
unfolding parse_loop
parse_loop-LoopExplains [] chars h = absurd (ground arith)
parse_loop-LoopExplains (c ∷ cs) chars {e} h = elim (Bool-cases (is_separator c)) [
  | inl skip ↦
      let next : parse_loop cs chars ≡ err e = ground arith in
      LoopExplains-skip c cs chars e skip (parse_loop-LoopExplains cs chars next)
  | inr keep ↦ elim (Bool-cases (in_alphabet (to_ascii_uppercase c))) [
    | inl known ↦ elim (Bool-cases (length chars == code_len)) [
      | inl full ↦ LoopExplains-stop c cs chars e keep (inr (ground arith, ground arith))
      | inr room ↦
          let next : parse_loop cs (chars ++ to_ascii_uppercase c ∷ []) ≡ err e = ground arith in
          LoopExplains-take c cs chars e keep (parse_loop-LoopExplains cs _ next)
    ]
    | inr unknown ↦ LoopExplains-stop c cs chars e keep (inl (ground arith, unknown))
  ]
]

Explains-parse_loop : (input : Text) (e : CodeError) → LoopExplains input [] e → Explains input e
Explains-parse_loop input (bad_char c) h = h
Explains-parse_loop input (wrong_length n) h = ground arith

-- An input that is refused is refused for what is wrong with it.
pub parse-Explains : (input : Text) {e : CodeError} → parse input ≡ err e → Explains input e
unfolding parse
parse-Explains input {e} h = elim (Result-cases (parse_loop input [])) [
  | inl (chars, p) ↦
      let (joined, inside, short) = parse_loop-eq-ok input [] (omega arith) p in
      subst (Explains input) {x = wrong_length (length chars)} (ground arith)
        (ground arith, ground (arith, joined, short))
  | inr (f, p) ↦
      let same : f ≡ e = ground arith in
      Explains-parse_loop input e (parse_loop-LoopExplains input [] (p ∙ ap err same))
]
