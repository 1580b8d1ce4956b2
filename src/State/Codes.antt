-- ===== src/State/Codes.antt =====
-- Codes (crates/anago/src/code.rs and crates/anago-core/src/state.rs): a code that is drawn is new,
-- and one that is spent stays spent.
use anago.Prelude.{
  ℕ, zero, suc, ◌+◌, ◌≤◌, ◌<◌, ◌≡◌, refl, sym, subst, ◌∙◌, inl, inr, true, false, List, ◌++◌, some,
  arith, ◌==◌, contains, any, Result, ok, err, Bool-cases, Result-cases,
}
use anago.Prelude.Int.{ℤ}
use native.Mathlib.Decide.{ℕ_discrete}
use anago.Text.{Text}
use anago.Code.{JoinCode, code_eq, code_beq_iff, IssuedCode}
use anago.State.{
  ServerState, DrawError, random, no_free_code, choose_loop, choose_unused, issued_codes, find_code,
  mark_used,
}
use anago.State.Found.{contains-issued_codes, find_code-mark_used, find_code-append}

-- The call number `n` draws a code that is in the state file already.
abbrev pub DrawsTaken : ServerState → (ℕ → Result Text JoinCode) → ℕ → Type 0
DrawsTaken s draw n =
    (code : JoinCode) × (draw n ≡ ok code) × (contains (issued_codes s.codes) code ≡ true)

-- What the drawing of a code ends in. A code was drawn in one of the calls and is in no entry; an
-- error of the source is that of a call; and without a code, every call drew one that is there.
abbrev pub Draws :
    ServerState → ℕ → (ℕ → Result Text JoinCode) → ℕ → ℕ → Result DrawError JoinCode → Type 0
Draws s draws draw first calls (ok code) =
    (n : ℕ) × (n < first + calls)
    × (draw n ≡ ok code)
    × (contains (issued_codes s.codes) code ≡ false)
Draws s draws draw first calls (err (random e)) = (n : ℕ) × (n < first + calls) × (draw n ≡ err e)
Draws s draws draw first calls (err (no_free_code m)) =
    (m ≡ draws) × ((n : ℕ) → first ≤ n → n < first + calls → DrawsTaken s draw n)

Draws-suc :
    (s : ServerState) (draws : ℕ) (draw : ℕ → Result Text JoinCode) (first left : ℕ)
    (r : Result DrawError JoinCode)
    → DrawsTaken s draw first
    → Draws s draws draw (first + 1) left r
    → Draws s draws draw first (suc left) r
Draws-suc s draws draw first left (ok code) t (n, lt, e, free) = (n, omega arith, e, free)
Draws-suc s draws draw first left (err (random x)) t (n, lt, e) = (n, omega arith, e)
Draws-suc s draws draw first left (err (no_free_code m)) t (same, all_taken) = (
  same,
  λ n p q. elim (ℕ_discrete n first) [
    | yes e ↦ subst (DrawsTaken s draw) (sym e) t
    | no ne ↦ all_taken n (omega arith) (omega arith)
  ],
)

choose_loop-Draws :
    (s : ServerState) (draws : ℕ) (draw : ℕ → Result Text JoinCode) (first calls : ℕ)
    → Draws s draws draw first calls (choose_loop s draws draw first calls)
unfolding choose_loop
choose_loop-Draws s draws draw first zero = (refl, λ n p q. absurd (omega arith))
choose_loop-Draws s draws draw first (suc left) = elim (Result-cases (draw first)) [
  | inl (c, drawn) ↦ elim (Bool-cases (any (λ (i : IssuedCode). i.code == c) s.codes)) [
    | inl here ↦
        rw (drawn, choose_loop, here)
          (Draws-suc s draws draw first left _
            (c, drawn, sym (contains-issued_codes c s.codes) ∙ here)
            (choose_loop-Draws s draws draw (first + 1) left))
    | inr free ↦
        rw (drawn, choose_loop, free)
          (first, omega arith, drawn, sym (contains-issued_codes c s.codes) ∙ free)
  ]
  | inr (e, failed) ↦ rw (failed, choose_loop) (first, omega arith, failed)
]

-- Every ending of `choose_unused`.
pub choose_unused-Draws :
    (s : ServerState) (draw : ℕ → Result Text JoinCode) (draws : ℕ)
    → Draws s draws draw 0 draws (choose_unused s draw draws)
unfolding choose_unused
choose_unused-Draws s draw draws = choose_loop-Draws s draws draw 0 draws

-- The first entry of the code is spent.
pub record IsSpent (code : JoinCode) (codes : List IssuedCode) : Type 0 where
  pub issued : IssuedCode
  pub found : find_code code codes ≡ some issued
  pub at : ℤ
  pub used_at : issued.used_at ≡ some at

pub IsSpent-mark_used :
    (c d : JoinCode) (now : ℤ) (codes : List IssuedCode)
    → IsSpent d codes
    → IsSpent d (mark_used c now codes)
IsSpent-mark_used c d now codes h = elim (Bool-cases (c == d)) [
  | inl same ↦ record {
    issued = record h.issued { used_at = some now };
    found = ground (arith, find_code-mark_used c d now codes, h.found, same);
    at = now;
    used_at = refl;
  }
  | inr other ↦ record {
    issued = h.issued;
    found = ground (arith, find_code-mark_used c d now codes, h.found, other);
    at = h.at;
    used_at = h.used_at;
  }
]

pub IsSpent-append :
    (d : JoinCode) (codes more : List IssuedCode) → IsSpent d codes → IsSpent d (codes ++ more)
IsSpent-append d codes more h = record {
  issued = h.issued;
  found = ground (arith, find_code-append d codes more, h.found);
  at = h.at;
  used_at = h.used_at;
}

-- A code that was just redeemed is spent.
pub mark_used-IsSpent :
    (c : JoinCode) (now : ℤ) (codes : List IssuedCode) (i : IssuedCode)
    → find_code c codes ≡ some i
    → IsSpent c (mark_used c now codes)
mark_used-IsSpent c now codes i f = record {
  issued = record i { used_at = some now };
  found = ground (arith, find_code-mark_used c c now codes, f, code_beq_iff c c);
  at = now;
  used_at = refl;
}
