-- ===== src/X509/Calendar.antt =====
-- The calendar arithmetic of crates/anago-core/src/x509.rs.
use anago.Prelude.{
  ℕ, ◌+◌, ◌-◌, ◌*◌, ◌/◌, ◌%◌, ◌≤◌, ◌<◌, ◌≡◌, refl, sym, ap, subst, ◌∙◌, inl, inr, nat_eq,
  if◌then◌else◌, ltb, leb, arith, Bool-cases,
}
use anago.Prelude.Int.{pos, ◌+ℤ◌, ◌-ℤ◌, ◌*ℤ◌, sub_ℕ}
use anago.Prelude.I64.{div_trunc}
use anago.X509.{is_leap, days_in_month, day_of_year, day_of_era, days_from_civil}

-- Days up to a day of a year that begins in March.
abbrev day_number : ℕ → ℕ → ℕ
day_number year day = year * 365 + year / 4 - year / 100 + year / 400 + day

era_lem : (z day : ℕ) → z / 400 * 146_097 + day_of_era (z % 400) day ≡ day_number z day
unfolding day_of_era
era_lem z day = omega arith

-- `days_from_civil` in closed form, from the year 1 on.
closed :
    (year month day : ℕ)
    → 1 ≤ year
    → days_from_civil (pos year) month day
      ≡ sub_ℕ (day_number (if leb month 2 then year - 1 else year) (day_of_year month day)) 719_468
unfolding days_from_civil div_trunc ◌+ℤ◌ ◌-ℤ◌ ◌*ℤ◌
closed year month day h = elim (Bool-cases (leb month 2)) [
  | inl early ↦ ground (arith, era_lem (year - 1) (day_of_year month day))
  | inr late ↦ ground (arith, era_lem year (day_of_year month day))
]

-- The day after, by the lengths of the months alone.
abbrev pub tomorrow : ℕ → ℕ → ℕ → ℕ × ℕ × ℕ
tomorrow year month day =
    if ltb day (days_in_month year month)
    then (year, month, day + 1)
    else if ltb month 12
    then (year, month + 1, 1)
    else (year + 1, 1, 1)

-- Within a month days follow each other.
same_month :
    (year month day : ℕ)
    → 1 ≤ year
    → 1 ≤ day
    → days_from_civil (pos year) month (day + 1) ≡ days_from_civil (pos year) month day +ℤ pos 1
unfolding day_of_year ◌+ℤ◌
same_month year month day y d =
    ground (arith, closed year month day y, closed year month (day + 1) y)

-- The last day of a month is followed by the first of the next one, leap years included.
month_end :
    (year month : ℕ)
    → 1 ≤ year
    → 1 ≤ month
    → month < 12
    → day_number (if leb (month + 1) 2 then year - 1 else year) (day_of_year (month + 1) 1)
      ≡ day_number
          (if leb month 2 then year - 1 else year)
          (day_of_year month (days_in_month year month))
        + 1
unfolding day_of_year days_in_month is_leap
month_end year month y m l = ground arith

-- So does a year.
year_end :
    (year : ℕ)
    → 1 ≤ year
    → days_from_civil (pos (year + 1)) 1 1 ≡ days_from_civil (pos year) 12 31 +ℤ pos 1
unfolding day_of_year ◌+ℤ◌
year_end year y = ground (arith, closed year 12 31 y, closed (year + 1) 1 1 (omega arith))

days_in_month-pos : (year month : ℕ) → 1 ≤ month → month ≤ 12 → 28 ≤ days_in_month year month
unfolding days_in_month
days_in_month-pos year month m l = ground arith

december : (year : ℕ) → days_in_month year 12 ≡ 31
unfolding days_in_month
december year = refl

next_month :
    (year month : ℕ)
    → 1 ≤ year
    → 1 ≤ month
    → month < 12
    → days_from_civil (pos year) (month + 1) 1
      ≡ days_from_civil (pos year) month (days_in_month year month) +ℤ pos 1
unfolding ◌+ℤ◌
next_month year month y m l = ground (
  arith,
  closed year month (days_in_month year month) y,
  closed year (month + 1) 1 y,
  month_end year month y m l,
)

tomorrow_step :
    (year month day : ℕ)
    → 1 ≤ year
    → 1 ≤ month
    → month ≤ 12
    → 1 ≤ day
    → day ≤ days_in_month year month
    → days_from_civil
        (pos (tomorrow year month day).0)
        (tomorrow year month day).1
        (tomorrow year month day).2
      ≡ days_from_civil (pos year) month day +ℤ pos 1
tomorrow_step year month day y m l d e = elim (Bool-cases (ltb day (days_in_month year month))) [
  | inl inside ↦ rw inside (same_month year month day y d)
  | inr last ↦
      let full : day ≡ days_in_month year month = ground arith in
      elim (Bool-cases (ltb month 12)) [
        | inl sooner ↦
            rw (last, sooner)
              (subst
                (λ x.
                  days_from_civil (pos year) (month + 1) 1
                  ≡ days_from_civil (pos year) month x +ℤ pos 1)
                (sym full) (next_month year month y m (ground arith)))
        | inr later ↦
            let december_now : month ≡ 12 = ground arith in
            let day_now : day ≡ 31 = full ∙ ap (days_in_month year) december_now ∙ december year in
            rw (last, later)
              (subst
                (λ x.
                  days_from_civil (pos (year + 1)) 1 1 ≡ days_from_civil (pos year) x day +ℤ pos 1)
                (sym december_now)
                (subst
                  (λ x.
                    days_from_civil (pos (year + 1)) 1 1 ≡ days_from_civil (pos year) 12 x +ℤ pos 1)
                  (sym day_now) (year_end year y)))
      ]
]

epoch_day : days_from_civil (pos 1970) 1 1 ≡ pos 0
unfolding days_from_civil day_of_year day_of_era div_trunc ◌+ℤ◌ ◌-ℤ◌ ◌*ℤ◌
epoch_day = refl

-- The day number is the calendar's: the first of January 1970 has number 0, and from the year 1 on,
-- the day after a date has the next number, over the ends of months and years, leap days and the
-- century rule included.
pub days_from_civil-tomorrow :
    (year month day : ℕ)
    → 1 ≤ year
    → 1 ≤ month
    → month ≤ 12
    → 1 ≤ day
    → day ≤ days_in_month year month
    → (days_from_civil (pos 1970) 1 1 ≡ pos 0)
      × (days_from_civil
            (pos (tomorrow year month day).0)
            (tomorrow year month day).1
            (tomorrow year month day).2
          ≡ days_from_civil (pos year) month day +ℤ pos 1)
days_from_civil-tomorrow year month day y m l d e =
    (epoch_day, tomorrow_step year month day y m l d e)
