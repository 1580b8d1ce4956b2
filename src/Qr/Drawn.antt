-- ===== src/Qr/Drawn.antt =====
-- What `draw` of crates/anago-core/src/qr.rs promises of a drawing.
use native.Mathlib.Nat.{mul-le-mul_right}
use anago.Prelude.{
  ℕ, suc, ◌≡◌, refl, sym, ap, ◌∙◌, subst, ◌≤◌, ◌<◌, ◌+◌, ◌*◌, ◌-◌, ◌⊎◌, inl, inr, Bool, false, List,
  none, some, nat_eq, get_elem?, length, arith, get_elem?-some,
}
use anago.Text.{Text}
use anago.Qr.{
  Modules, modules, is_dark, Blocks, full, half, span, quiet, columns, rows, fit, ink, reset,
  dark_at, draw_with, Drawing, code, too_narrow, draw,
}
use anago.Qr.Lines.{nth_line, line_feeds}
use anago.Qr.Pixels.{pixel, draw_with-pixel, draw_with-lines, draw_with-columns}

-- A text that shows a code in a style that fits, within its quiet zone.
pub record Shows (size : ℕ) (dark : List Bool) (available : ℕ) (text : Text) : Type 0 where
  pub blocks : Blocks
  pub fits : columns size blocks ≤ available
  pub widest : blocks ≡ half → available < columns size full
  pub lines : line_feeds text ≡ rows size blocks
  pub wide :
      (r : ℕ)
      → r < rows size blocks
      → length (nth_line r text) ≡ columns size blocks + length ink + length reset
  pub inside :
      (x y : ℕ)
      → x < size
      → y < size
      → pixel blocks text (quiet + x) (quiet + y) ≡ get_elem? dark (y * size + x)
  pub margin :
      (x y : ℕ)
      → x < span size
      → y < span size
      → (x < quiet) ⊎ ((y < quiet) ⊎ ((quiet + size ≤ x) ⊎ (quiet + size ≤ y)))
      → pixel blocks text x y ≡ some false

-- A code, or the columns that the smaller style would need.
abbrev pub IsDrawn : ℕ → List Bool → ℕ → Drawing → Type 0
IsDrawn size dark available (code text) = Shows size dark available text
IsDrawn size dark available (too_narrow needed had) =
    (needed ≡ columns size half) × (had ≡ available) × (available < needed)

modules-square :
    (size : ℕ) (dark : List Bool) {m : Modules}
    → modules size dark ≡ some m
    → (m ≡ record { size = size; dark = dark }) × (length dark ≡ size * size)
unfolding modules
modules-square size dark {m} h = ground arith

module _ (size : ℕ) (dark : List Bool) (square : length dark ≡ size * size) where
  dark_at-inside :
      (x y : ℕ)
      → x < size
      → y < size
      → some (dark_at (record { size = size; dark = dark }) (quiet + x) (quiet + y))
        ≡ get_elem? dark (y * size + x)
  unfolding dark_at is_dark
  dark_at-inside x y hx hy =
      let bound : y * size + x < size * size =
        omega (arith, mul-le-mul_right {m = suc y} {n = size} size hy) in
      let (b, found) = get_elem?-some dark (y * size + x) (omega (arith, bound, square)) in
      let xs : quiet + x - quiet ≡ x = omega arith in
      let ys : quiet + y - quiet ≡ y = omega arith in ground (arith, found, xs, ys)

  dark_at-margin :
      (x y : ℕ)
      → (x < quiet) ⊎ ((y < quiet) ⊎ ((quiet + size ≤ x) ⊎ (quiet + size ≤ y)))
      → dark_at (record { size = size; dark = dark }) x y ≡ false
  unfolding dark_at is_dark
  dark_at-margin x y h = ground arith

fit-cases :
    (size available : ℕ)
    → ((fit size available ≡ some full) × (columns size full ≤ available))
      ⊎ (((fit size available ≡ some half)
            × (columns size half ≤ available)
            × (available < columns size full))
          ⊎ ((fit size available ≡ none) × (available < columns size half)))
unfolding fit
fit-cases size available = ground arith

module _ (size : ℕ) (dark : List Bool) (available : ℕ) (square : length dark ≡ size * size) where
  draw_with-Shows :
      (b : Blocks)
      → columns size b ≤ available
      → (b ≡ half → available < columns size full)
      → Shows size dark available (draw_with (record { size = size; dark = dark }) b)
  draw_with-Shows b fits widest =
      let m : Modules = record { size = size; dark = dark } in
      record {
        blocks = b;
        fits = fits;
        widest = widest;
        lines = draw_with-lines m b;
        wide = draw_with-columns m b;
        inside = λ x y hx hy.
            draw_with-pixel m b (quiet + x) (quiet + y) (omega arith) (omega arith)
            ∙ dark_at-inside size dark square x y hx hy;
        margin = λ x y hx hy h.
            draw_with-pixel m b x y hx hy ∙ ap some (dark_at-margin size dark square x y h);
      }

-- A grid of modules is drawn for a terminal of any width. The drawing is in the widest style that
-- fits: it has the lines that `rows` counts, each as many characters wide as `columns` says beside
-- the escapes around it, and shows every module of the grid in its place and light modules around
-- them, `QUIET` on every side. Where no style fits, the terminal is narrower than the columns told.
pub draw-IsDrawn :
    (size : ℕ) (dark : List Bool) (available : ℕ) {m : Modules}
    → modules size dark ≡ some m
    → IsDrawn size dark available (draw m available)
unfolding draw
draw-IsDrawn size dark available {m} h =
    let (same, square) = modules-square size dark {m = m} h in
    let at : Modules = record { size = size; dark = dark } in
    let drawn : draw m available ≡ draw at available = ap (λ m. draw m available) same in
    elim (fit-cases size available) [
      | inl (e, fits) ↦
          let shown : draw at available ≡ code (draw_with at full) = rw (draw, e) refl in
          subst (IsDrawn size dark available) (sym (drawn ∙ shown))
            (draw_with-Shows size dark available square full fits (λ k. absurd (ground arith)))
      | inr (inl (e, fits, wider)) ↦
          let shown : draw at available ≡ code (draw_with at half) = rw (draw, e) refl in
          subst (IsDrawn size dark available) (sym (drawn ∙ shown))
            (draw_with-Shows size dark available square half fits (λ k. wider))
      | inr (inr (e, narrow)) ↦
          let told : draw at available ≡ too_narrow (columns size half) available =
            rw (draw, e) refl in
          subst (IsDrawn size dark available) (sym (drawn ∙ told)) (refl, refl, narrow)
    ]
