-- ===== src/Json/Escapes.antt =====
-- What reading a string yields (crates/anago-core/src/json.rs): it always leaves a shorter text.
use anago.Prelude.{
  ℕ, zero, suc, ◌+◌, ◌-◌, ◌*◌, ◌≤◌, ◌<◌, ◌≡◌, ◌&&◌, Option, none, some, [], ◌∷◌, arith, nat_eq,
  ◌==◌, ltb, leb, length, ok, ◌>>=◌, Option-cases, Bool-cases, inl, inr,
}
use anago.Text.{Text, lit, byte_len, strip_prefix}
use anago.Json.Read.{
  Parsed, expect, hex_value, hex_run, hex4, scalar, is_scalar, join_surrogates, low_surrogate,
  code_point, unicode_escape, short_escape, read_escape, read_char, grow, read_chars, read_string,
  fail_at, lone_high_surrogate,
}
use anago.Json.Yields.{
  Yields, Yields-ok, Yields-fails, bind-Yields, imp-Yields, if-Yields, Shorter, expect-Yields,
  strip_prefix-length,
}

hex_run-length :
    (n acc : ℕ) (s : Text) {v : ℕ} {r : Text}
    → hex_run n acc s ≡ some (v, r)
    → n + length r ≡ length s
hex_run-length zero acc s h = ground arith
hex_run-length (suc n) acc [] h = absurd (ground arith)
hex_run-length (suc n) acc (c ∷ s) {v} {r} h = elim (Option-cases (hex_value c)) [
  | inl e ↦ absurd (ground arith)
  | inr (d, e) ↦
      let g : hex_run n (acc * 16 + d) s ≡ some (v, r) = ground arith in
      omega (arith, hex_run-length n (acc * 16 + d) s g)
]

hex4-Yields : (s : Text) → Yields (Shorter (length s)) (hex4 s)
unfolding Yields hex4
hex4-Yields s = elim (Bool-cases (ltb (byte_len s) 4)) [
  | inl e ↦ rw (e, hex4) tt
  | inr e ↦ elim (Option-cases (hex_run 4 0 s)) [
    | inl g ↦ rw (e, hex4, g) tt
    | inr ((v, r), g) ↦ rw (e, hex4, g) (omega (arith, hex_run-length 4 0 s g))
  ]
]

scalar-Yields : (n c : ℕ) (s : Text) → length s < n → Yields (Shorter n) (scalar c s)
unfolding Yields
scalar-Yields n c s h = elim (Bool-cases (is_scalar c)) [ inl e ↦ rw e h | inr e ↦ rw e tt ]

join_surrogates-Yields :
    (n high low : ℕ) (s : Text) → length s < n → Yields (Shorter n) (join_surrogates high low s)
join_surrogates-Yields n high low s h =
    let c = 0x10000 + (high - 0xD800) * 0x400 + (low - 0xDC00) in
    if-Yields (Shorter n) (leb 0xDC00 low && leb low 0xDFFF) (scalar c s) _ (scalar-Yields n c s h)
      (Yields-fails _ _ _)

low_surrogate-Yields :
    (n high : ℕ) (s : Text) → length s ≤ n → Yields (Shorter n) (low_surrogate high s)
low_surrogate-Yields n high s h =
    bind-Yields (Shorter (length s)) (Shorter n) (hex4 s) _ (hex4-Yields s)
      (λ (low, r) k. join_surrogates-Yields n high low r (omega arith))

pair-Yields :
    (n high : ℕ) (s : Text)
    → length s < n
    → Yields {A = ℕ × Text} (Shorter n) (elim (strip_prefix (lit "\\u") s) [
      | none ↦ fail_at lone_high_surrogate s
      | some s1 ↦ low_surrogate high s1
    ])
unfolding Yields
pair-Yields n high s h = elim (Option-cases (strip_prefix (lit "\\u") s)) [
  | inl g ↦ rw g tt
  | inr (r, g) ↦
      rw g (low_surrogate-Yields n high r (omega (arith, strip_prefix-length (lit "\\u") s g)))
]

code_point-Yields :
    (n first : ℕ) (s : Text) → length s < n → Yields (Shorter n) (code_point (first, s))
code_point-Yields n first s h =
    if-Yields (Shorter n) _ _ _ (pair-Yields n first s h)
      (if-Yields (Shorter n) _ _ _ (Yields-fails _ _ _) (scalar-Yields n first s h))

unicode_escape-Yields : (s : Text) → Yields (Shorter (length s)) (unicode_escape s)
unfolding unicode_escape
unicode_escape-Yields s =
    bind-Yields (Shorter (length s)) (Shorter (length s)) (hex4 s) code_point (hex4-Yields s)
      (λ (first, r) k. code_point-Yields (length s) first r k)

weaken : {A : Type 0} (n k : ℕ) (m : Parsed A) → n ≤ k → Yields (Shorter n) m → Yields (Shorter k) m
weaken n k m l h = imp-Yields (Shorter n) (Shorter k) m h (λ (a, s) q. omega arith)

read_escape-Yields : (s : Text) → Yields (Shorter (length s)) (read_escape s)
unfolding read_escape
read_escape-Yields [] = Yields-fails _ _ _
read_escape-Yields (c ∷ s) =
    let P : ℕ × Text → Type 0 = Shorter (suc (length s)) in
    elim (Option-cases (short_escape c)) [
      | inl e ↦
          rw (read_escape, e)
            (if-Yields P (c == b'u') (unicode_escape s) _
              (weaken (length s) (suc (length s)) (unicode_escape s) (omega arith)
                (unicode_escape-Yields s))
              (Yields-fails P _ _))
      | inr (d, e) ↦ rw (read_escape, e) (Yields-ok P (d, s) (omega arith))
    ]

read_char-Yields : (s : Text) → Yields (Shorter (length s)) (read_char s)
unfolding read_char
read_char-Yields [] = Yields-fails _ _ _
read_char-Yields (c ∷ s) =
    let P : Option ℕ × Text → Type 0 = Shorter (suc (length s)) in
    if-Yields P _ _ _ (Yields-ok P (none, s) (omega arith)) (
      if-Yields P _ _ _
        (bind-Yields (Shorter (length s)) P (read_escape s) (λ (e, r). ok (some e, r))
          (read_escape-Yields s) (λ (e, r) k. Yields-ok P (some e, r) (omega arith)))
        (if-Yields P _ _ _ (Yields-fails P _ _) (Yields-ok P (some c, s) (omega arith))))

after_char-Yields :
    (f : ℕ) (next : Option ℕ) (s : Text) (n : ℕ)
    → length s < n
    → Yields (Shorter (length s)) (read_chars f s)
    → Yields {A = Text × Text}
        (Shorter n)
        (elim next [ none ↦ ok ([], s) | some c ↦ do r ← read_chars f s; grow c r ])
after_char-Yields f none s n h k = Yields-ok _ _ h
after_char-Yields f (some c) s n h k =
    bind-Yields (Shorter (length s)) (Shorter n) (read_chars f s) (grow c) k
      (λ (buf, r) l. Yields-ok _ _ (omega arith))

read_chars-Yields : (f : ℕ) (s : Text) → length s < f → Yields (Shorter (length s)) (read_chars f s)
unfolding read_chars
read_chars-Yields zero s h = elim h [ ]
read_chars-Yields (suc f) s h =
    bind-Yields (Shorter (length s)) (Shorter (length s)) (read_char s) _ (read_char-Yields s)
      (λ (next, r) k. after_char-Yields f next r (length s) k (read_chars-Yields f r (omega arith)))

pub read_string-Yields : (s : Text) → Yields (Shorter (length s)) (read_string s)
unfolding read_string
read_string-Yields s =
    bind-Yields (λ r. length r < length s) (Shorter (length s)) (expect 0x22 s) _
      (expect-Yields 0x22 s)
      (λ r h.
        weaken (length r) (length s) (read_chars (suc (length r)) r) (omega arith)
          (read_chars-Yields (suc (length r)) r (omega arith)))
