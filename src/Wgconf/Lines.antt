-- ===== src/Wgconf/Lines.antt =====
-- `str::lines`, and `strip_quick_keys` of crates/anago-core/src/wgconf.rs by lines.
use anago.Prelude.{
  ℕ, ◌≡◌, refl, sym, ap, subst, ◌∙◌, inl, inr, true, false, not, List, [], ◌∷◌, ◌++◌, some, ◌==◌,
  nat_eq, if◌then◌else◌, all, All, contains, arith, Bool-cases, Option-cases,
}
use mathlib.Core.List.{append-nil, append_assoc}
use anago.Text.{Text, last?}
use anago.Wgconf.{strip_cr, lines_from, lines, is_quick, keep_lines, strip_quick_keys}

-- A line without line breaks.
abbrev pub IsLine : Text → Type 0
IsLine line = (contains line b'\n' ≡ false) × (contains line b'\r' ≡ false)

last-contains : (line : Text) {c : ℕ} → last? line ≡ some c → contains line c ≡ true
last-contains [] h = absurd (ground arith)
last-contains (x ∷ []) h = ground arith
last-contains (x ∷ y ∷ rest) h = ground (arith, last-contains (y ∷ rest) h)

strip_cr_self : (line : Text) → contains line b'\r' ≡ false → strip_cr line ≡ line
strip_cr_self line h = elim (Option-cases (last? line)) [
  | inl e ↦ rw (strip_cr, e) refl
  | inr (c, e) ↦ elim (Bool-cases (c == b'\r')) [
    | inl cr ↦ absurd (ground (arith, last-contains line e))
    | inr other ↦ rw (strip_cr, e, other) refl
  ]
]

lines_from-line :
    (l rest acc : Text)
    → contains l b'\n' ≡ false
    → lines_from (l ++ b'\n' ∷ rest) acc ≡ strip_cr (acc ++ l) ∷ lines_from rest []
unfolding lines_from
lines_from-line [] rest acc h = ap (λ s. strip_cr s ∷ lines_from rest []) (sym (append-nil acc))
lines_from-line (c ∷ cs) rest acc h =
    let shorter : lines_from (cs ++ b'\n' ∷ rest) (acc ++ c ∷ [])
        ≡ strip_cr ((acc ++ c ∷ []) ++ cs) ∷ lines_from rest [] =
      lines_from-line cs rest (acc ++ c ∷ []) (ground arith) in
    let other : (c == b'\n') ≡ false = ground arith in
    rw other (shorter ∙ ap (λ s. strip_cr s ∷ lines_from rest []) (append_assoc acc (c ∷ []) cs))

-- A line that is ended is the first line.
pub lines-line : (l rest : Text) → IsLine l → lines (l ++ b'\n' ∷ rest) ≡ l ∷ lines rest
lines-line l rest h = lines_from-line l rest [] h.0 ∙ ap (λ s. s ∷ lines rest) (strip_cr_self l h.1)

abbrev pub kept : List Text → List Text
kept [] = []
kept (line ∷ rest) = if is_quick line then kept rest else line ∷ kept rest

lines-keep_lines : (ls : List Text) → All IsLine ls → lines (keep_lines ls) ≡ kept ls
unfolding keep_lines lines_from
lines-keep_lines [] h = refl
lines-keep_lines (l ∷ ls) h = elim (Bool-cases (is_quick l)) [
  | inl quick ↦ rw (quick, keep_lines) (lines-keep_lines ls h.1)
  | inr plain ↦
      rw (plain, keep_lines)
        (lines-line l (keep_lines ls) h.0 ∙ ap (λ r. l ∷ r) (lines-keep_lines ls h.1))
]

keep_lines-kept : (ls : List Text) → keep_lines (kept ls) ≡ keep_lines ls
unfolding keep_lines
keep_lines-kept [] = refl
keep_lines-kept (l ∷ ls) = elim (Bool-cases (is_quick l)) [
  | inl quick ↦ rw (quick, keep_lines) (keep_lines-kept ls)
  | inr plain ↦ rw (plain, keep_lines, plain) (ap (λ r. l ++ b'\n' ∷ r) (keep_lines-kept ls))
]

all-kept : (ls : List Text) → all (λ l. not (is_quick l)) (kept ls) ≡ true
all-kept [] = refl
all-kept (l ∷ ls) = ground (arith, all-kept ls)

contains-snoc :
    (l : Text) (c d : ℕ)
    → contains l d ≡ false
    → (c == d) ≡ false
    → contains (l ++ c ∷ []) d ≡ false
contains-snoc [] c d h k = ground (arith, k)
contains-snoc (x ∷ l) c d h k = ground (arith, contains-snoc l c d)

lines_from-IsLine :
    (s acc : Text) → contains s b'\r' ≡ false → IsLine acc → All IsLine (lines_from s acc)
unfolding lines_from
lines_from-IsLine [] [] h a = tt
lines_from-IsLine [] (x ∷ acc) h a = (a, tt)
lines_from-IsLine (c ∷ cs) acc h a = elim (Bool-cases (c == b'\n')) [
  | inl here ↦ rw here (
    subst IsLine (sym (strip_cr_self acc a.1)) a,
    lines_from-IsLine cs [] (ground arith) (refl, refl),
  )
  | inr other ↦ rw other (
      lines_from-IsLine cs (acc ++ c ∷ []) (ground arith)
        (contains-snoc acc c b'\n' a.0 other, contains-snoc acc c b'\r' a.1 (ground arith)))
]

-- In a configuration without carriage returns, the lines that are left are the lines that `wg`
-- reads, in their order, and no line is left that only `wg-quick` reads; stripping again changes
-- nothing.
pub strip_quick_keys-kept :
    (conf : Text)
    → contains conf b'\r' ≡ false
    → (lines (strip_quick_keys conf) ≡ kept (lines conf))
      × (all (λ l. not (is_quick l)) (lines (strip_quick_keys conf)) ≡ true)
      × (strip_quick_keys (strip_quick_keys conf) ≡ strip_quick_keys conf)
unfolding strip_quick_keys
strip_quick_keys-kept conf h =
    let same = lines-keep_lines (lines conf) (lines_from-IsLine conf [] h (refl, refl)) in
    (
      same,
      ap (all (λ l. not (is_quick l))) same ∙ all-kept (lines conf),
      ap keep_lines same ∙ keep_lines-kept (lines conf),
    )
