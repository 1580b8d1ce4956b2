-- ===== src/Qr.antt =====
-- crates/anago-core/src/qr.rs: the drawing of a QR code on a terminal.
pub mod Lines
pub mod Pixels
pub mod Drawn
mod Tests
use anago.Prelude.{
  ℕ, zero, suc, ◌≡◌, ◌+◌, ◌*◌, ◌-◌, ◌/◌, ◌%◌, Bool, true, false, ◌&&◌, ◌||◌, List, [], ◌∷◌, ◌++◌,
  Option, none, some, ◌==◌, nat_eq, leb, ltb, if◌then◌else◌, get_elem?, length, find,
}
use anago.Text.{Text, lit}

-- `QUIET` and `SMALLEST`.
abbrev pub quiet : ℕ
quiet = 4

abbrev pub smallest : ℕ
smallest = 21

pub record Modules : Type 0 where
  pub size : ℕ
  pub dark : List Bool

-- `Modules::new`.
unfoldable pub modules : ℕ → List Bool → Option Modules
modules size dark =
    if ltb 0 size && (length dark == size * size)
    then some (record { size = size; dark = dark })
    else none

-- Out of the list, where the index of the source panics, the model has a light module.
abbrev pub module_at : List Bool → ℕ → Bool
module_at dark i = elim (get_elem? dark i) [ none ↦ false | some b ↦ b ]

unfoldable pub is_dark : Modules → ℕ → ℕ → Bool
is_dark m x y = if leb m.size x || leb m.size y then false else module_at m.dark (y * m.size + x)

pub data Blocks : Type 0 where
  full half : Blocks

abbrev pub span : ℕ → ℕ
span size = size + 2 * quiet

-- `div_ceil(2)`.
abbrev pub half_up : ℕ → ℕ
half_up n = (n + 1) / 2

abbrev pub columns : ℕ → Blocks → ℕ
columns size full = span size * 2
columns size half = span size

abbrev pub rows : ℕ → Blocks → ℕ
rows size full = span size
rows size half = half_up (span size)

unfoldable pub fit : ℕ → ℕ → Option Blocks
fit size available = find (λ blocks. leb (columns size blocks) available) (full ∷ half ∷ [])

abbrev pub ink : Text
ink = lit "\u{1b}[30;47m"

abbrev pub reset : Text
reset = lit "\u{1b}[0m"

-- The closure `dark` of `draw_with`: the code with its quiet zone.
unfoldable pub dark_at : Modules → ℕ → ℕ → Bool
dark_at m x y = leb quiet x && leb quiet y && is_dark m (x - quiet) (y - quiet)

-- `for i in at..at + n`, each turn pushing a text.
unfoldable pub push_each : (ℕ → Text) → ℕ → ℕ → Text
push_each f at zero = []
push_each f at (suc n) = f at ++ push_each f (suc at) n

abbrev pub full_cell : Bool → Text
full_cell true = lit "██"
full_cell false = lit "  "

abbrev pub half_cell : Bool → Bool → ℕ
half_cell true true = 0x2588
half_cell true false = 0x2580
half_cell false true = 0x2584
half_cell false false = b' '

abbrev pub full_line : Modules → ℕ → Text
full_line m y = ink ++ push_each (λ x. full_cell (dark_at m x y)) 0 (span m.size) ++ reset

abbrev pub half_line : Modules → ℕ → Text
half_line m pair =
    ink
    ++ push_each (λ x. half_cell (dark_at m x (pair * 2)) (dark_at m x (pair * 2 + 1)) ∷ []) 0
        (span m.size)
    ++ reset

unfoldable pub draw_with : Modules → Blocks → Text
draw_with m full = push_each (λ y. full_line m y ++ b'\n' ∷ []) 0 (span m.size)
draw_with m half = push_each (λ pair. half_line m pair ++ b'\n' ∷ []) 0 (half_up (span m.size))

pub data Drawing : Type 0 where
  code : Text → Drawing
  too_narrow : ℕ → ℕ → Drawing

unfoldable pub draw : Modules → ℕ → Drawing
draw m available = elim (fit m.size available) [
  | none ↦ too_narrow (columns m.size half) available
  | some blocks ↦ code (draw_with m blocks)
]
