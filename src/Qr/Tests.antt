-- ===== src/Qr/Tests.antt =====
-- Runs of crates/anago-core/src/qr.rs.
use anago.Prelude.{◌≡◌, refl, true, false, List, [], ◌∷◌, Bool, none, some}
use anago.Qr.{Modules, modules, fit, half, full, smallest, draw, too_narrow}
use anago.Qr.Drawn.{IsDrawn, draw-IsDrawn}

abbrev dots : List Bool
dots = true ∷ false ∷ false ∷ true ∷ []

abbrev tiny : Modules
tiny = record { size = 2; dark = dots }

modules-dots : modules 2 dots ≡ some tiny
unfolding modules
modules-dots = refl

modules_ragged : modules 2 (true ∷ dots) ≡ none
unfolding modules
modules_ragged = refl

-- The smallest code there is needs 58 columns to be drawn in full, and 29 at least.
fit-smallest : fit smallest 58 ≡ some full
unfolding fit
fit-smallest = refl

fit_below : fit smallest 57 ≡ some half
unfolding fit
fit_below = refl

fit_narrow : fit smallest 28 ≡ none
unfolding fit
fit_narrow = refl

draw_narrow : draw tiny 9 ≡ too_narrow 10 9
unfolding draw fit
draw_narrow = refl

draw-IsDrawn_example : IsDrawn 2 dots 80 (draw tiny 80)
draw-IsDrawn_example = draw-IsDrawn 2 dots 80 modules-dots
