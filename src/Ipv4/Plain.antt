-- ===== src/Ipv4/Plain.antt =====
-- What an address is displayed as has no whitespace.
use anago.Prelude.{ℕ, ◌≡◌, refl, false}
use anago.Text.{is_whitespace}
use anago.Text.Decimal.{decimal, decimal-AllDigits}
use anago.Text.Trim.{AllPlain, AllPlain-append, AllDigits-AllPlain}
use anago.Ipv4.{Ipv4Addr, display}

dot : is_whitespace b'.' ≡ false
unfolding is_whitespace
dot = refl

pub display-AllPlain : (x : Ipv4Addr) → AllPlain (display x)
unfolding display
display-AllPlain x =
    let plain : (n : ℕ) → AllPlain (decimal n) =
      λ n. AllDigits-AllPlain (decimal n) (decimal-AllDigits n) in
    AllPlain-append (decimal x.a) _ (plain x.a) (
      dot,
      AllPlain-append (decimal x.b) _ (plain x.b)
          (dot, AllPlain-append (decimal x.c) _ (plain x.c) (dot, plain x.d)),
    )
