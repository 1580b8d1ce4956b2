-- ===== src/X509/Tests.antt =====
-- Runs of crates/anago-core/src/x509.rs.
use anago.Prelude.{ℕ, ◌≡◌, refl, ◌↔◌, List, [], ◌∷◌, ◌++◌, none, some, arith}
use anago.Prelude.Int.{pos, ◌+ℤ◌, ◌-ℤ◌, ◌*ℤ◌}
use anago.Prelude.I64.{div_trunc}
use anago.Text.{Text, lit}
use anago.X509.{
  utc_time, next, read_contents, expect, is_leap, days_in_month, number, day_of_year, day_of_era,
  days_from_civil, year_and_rest, fields, Moment, is_valid, epoch_secs, time, after_version,
  second_time, not_after,
}
use anago.X509.Calendar.{tomorrow, days_from_civil-tomorrow}
use anago.X509.Times.{IsMoment, Spells, time-IsMoment_iff}

abbrev march : Text
march = lit "260301120000Z"

time-march : time utc_time march ≡ some (pos 1_772_366_400)
unfolding time year_and_rest number fields is_valid days_in_month is_leap epoch_secs days_from_civil
    day_of_year day_of_era div_trunc ◌+ℤ◌ ◌-ℤ◌ ◌*ℤ◌
time-march = refl

time_february : time utc_time (lit "260231120000Z") ≡ none
unfolding time year_and_rest number fields is_valid days_in_month is_leap
time_february = refl

-- A certificate with an empty issuer, and that time at its end.
abbrev certificate : List ℕ
certificate =
    0x30
      ∷ 45
      ∷ 0x30
      ∷ 43
      ∷ 0xA0
      ∷ 3
      ∷ 2
      ∷ 1
      ∷ 2
      ∷ 2
      ∷ 1
      ∷ 7
      ∷ 0x30
      ∷ 0
      ∷ 0x30
      ∷ 0
      ∷ 0x30
      ∷ 29
      ∷ 0x17
      ∷ 12
      ∷ lit "260101120000"
    ++ 0x17 ∷ 13 ∷ march

not_after-certificate : not_after certificate ≡ some (pos 1_772_366_400)
unfolding not_after after_version second_time expect next read_contents time year_and_rest number
    fields is_valid days_in_month is_leap epoch_secs days_from_civil day_of_year day_of_era
    div_trunc ◌+ℤ◌ ◌-ℤ◌ ◌*ℤ◌
not_after-certificate = refl

days_from_civil-tomorrow_example :
    (days_from_civil (pos 1970) 1 1 ≡ pos 0)
    × (days_from_civil (pos (tomorrow 2000 2 29).0) (tomorrow 2000 2 29).1 (tomorrow 2000 2 29).2
        ≡ days_from_civil (pos 2000) 2 29 +ℤ pos 1)
unfolding days_in_month is_leap
days_from_civil-tomorrow_example =
    days_from_civil-tomorrow 2000 2 29 (omega arith) (omega arith) (omega arith) (omega arith)
      (omega arith)

long_form : next (0x04 ∷ 0x81 ∷ 2 ∷ 8 ∷ 9 ∷ 5 ∷ []) ≡ some (0x04, 8 ∷ 9 ∷ [], 5 ∷ [])
unfolding next read_contents
long_form = refl

-- A length beyond the bytes is refused.
beyond : next (0x04 ∷ 3 ∷ 8 ∷ 9 ∷ []) ≡ none
unfolding next read_contents
beyond = refl

time-IsMoment_iff_example :
    (time utc_time march ≡ some (pos 1_772_366_400))
    ↔ ((m : Moment) × IsMoment m × Spells utc_time march m × (pos 1_772_366_400 ≡ epoch_secs m))
time-IsMoment_iff_example = time-IsMoment_iff utc_time march (pos 1_772_366_400)
