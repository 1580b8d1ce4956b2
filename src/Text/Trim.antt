-- ===== src/Text/Trim.antt =====
-- `trim` leaves a text alone that has no whitespace at its ends.
use anago.Prelude.{ℕ, ◌≡◌, refl, false, [], ◌∷◌, ◌++◌, some, arith, All}
use anago.Text.Decimal.{AllDigits}
use anago.Text.{Text, is_whitespace, trim_start, trim_end, trim, last?}

pub trim_end_self : (s : Text) {c : ℕ} → last? s ≡ some c → is_whitespace c ≡ false → trim_end s ≡ s
unfolding trim_end
trim_end_self [] h w = refl
trim_end_self (x ∷ []) h w = ground arith
trim_end_self (x ∷ y ∷ rest) h w = ground (arith, trim_end_self (y ∷ rest) h w)

pub trim_self :
    (c : ℕ) (cs : Text) {d : ℕ}
    → is_whitespace c ≡ false
    → last? (c ∷ cs) ≡ some d
    → is_whitespace d ≡ false
    → trim (c ∷ cs) ≡ c ∷ cs
unfolding trim_start
trim_self c cs w h v = ground (arith, trim_end_self (c ∷ cs) h v)

-- No character is whitespace.
abbrev pub AllPlain : Text → Type 0
AllPlain = All (λ c. is_whitespace c ≡ false)

pub AllPlain-append : (s t : Text) → AllPlain s → AllPlain t → AllPlain (s ++ t)
AllPlain-append [] t h k = k
AllPlain-append (c ∷ cs) t h k = (h.0, AllPlain-append cs t h.1 k)

trim_end-AllPlain : (s : Text) → AllPlain s → trim_end s ≡ s
unfolding trim_end
trim_end-AllPlain [] h = refl
trim_end-AllPlain (c ∷ []) h = ground (arith, h.0)
trim_end-AllPlain (c ∷ d ∷ cs) h = ground (arith, trim_end-AllPlain (d ∷ cs) h.1)

pub trim-AllPlain : (s : Text) → AllPlain s → trim s ≡ s
unfolding trim_start trim_end
trim-AllPlain [] h = refl
trim-AllPlain (c ∷ cs) h = rw h.0 (trim_end-AllPlain (c ∷ cs) h)

pub AllDigits-AllPlain : (s : Text) → AllDigits s → AllPlain s
unfolding is_whitespace
AllDigits-AllPlain [] h = tt
AllDigits-AllPlain (c ∷ cs) h = (ground (arith, h.0), AllDigits-AllPlain cs h.1)
