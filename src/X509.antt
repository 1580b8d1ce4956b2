-- ===== src/X509.antt =====
-- crates/anago-core/src/x509.rs: the notAfter of a certificate.
pub mod Calendar
pub mod Elements
pub mod Digits
pub mod Times
mod Tests
use anago.Prelude.{
  ℕ, ◌+◌, ◌-◌, ◌*◌, ◌/◌, ◌%◌, ◌≡◌, Bool, true, false, not, ◌&&◌, ◌||◌, List, [], ◌∷◌, Option, none,
  some, ◌==◌, nat_eq, if◌then◌else◌, ltb, leb, length, take, drop, bit_and,
}
use anago.Prelude.Int.{ℤ, pos, pos_part, ◌+ℤ◌, ◌-ℤ◌, ◌*ℤ◌}
use anago.Prelude.I64.{geb_ℤ, div_trunc}
use anago.Text.{is_digit, last?}

abbrev pub sequence_tag : ℕ
sequence_tag = 0x30

abbrev pub integer_tag : ℕ
integer_tag = 0x02

abbrev pub version_tag : ℕ
version_tag = 0xA0

abbrev pub utc_time : ℕ
utc_time = 0x17

abbrev pub generalized_time : ℕ
generalized_time = 0x18

-- A tag, the contents and what is left.
abbrev pub Element : Type 0
Element = ℕ × List ℕ × List ℕ

-- `fold(0, |n, b| (n << 8) | b)`; `b` is a byte, so `|` is a sum.
abbrev pub be_value : ℕ → List ℕ → ℕ
be_value n [] = n
be_value n (b ∷ bs) = be_value (n * 256 + b) bs

unfoldable pub read_contents : ℕ → ℕ → List ℕ → Option Element
read_contents tag len rest =
    if ltb (length rest) len then none else some (tag, take len rest, drop len rest)

-- `Der::next`; the cursor is the bytes that are left.
unfoldable pub next : List ℕ → Option Element
next [] = none
next (tag ∷ []) = none
next (tag ∷ first ∷ rest) =
    if ltb first 0x80
    then read_contents tag first rest
    else let count = bit_and first 0x7f in
      if (count == 0) || ltb 4 count || ltb (length rest) count
      then none
      else read_contents tag (be_value 0 (take count rest)) (drop count rest)

-- `Der::expect`: the contents and what is left.
unfoldable pub expect : ℕ → List ℕ → Option (List ℕ × List ℕ)
expect tag bytes = elim (next bytes) [
  | none ↦ none
  | some (found, contents, rest) ↦ if found == tag then some (contents, rest) else none
]

unfoldable pub is_leap : ℕ → Bool
is_leap year = (year % 4 == 0) && (not (year % 100 == 0) || (year % 400 == 0))

unfoldable pub days_in_month : ℕ → ℕ → ℕ
days_in_month year month =
    if (month == 1)
      || (month == 3)
      || (month == 5)
      || (month == 7)
      || (month == 8)
      || (month == 10)
      || (month == 12)
    then 31
    else if (month == 4) || (month == 6) || (month == 9) || (month == 11)
    then 30
    else if (month == 2) && is_leap year
    then 29
    else if month == 2
    then 28
    else 0

-- Two digits at the start, and `number` at an offset.
abbrev pub pair : List ℕ → Option ℕ
pair [] = none
pair (a ∷ []) = none
pair (a ∷ b ∷ rest) = if is_digit a && is_digit b then some ((a - b'0') * 10 + (b - b'0')) else none

unfoldable pub number : List ℕ → ℕ → Option ℕ
number text at = pair (drop at text)

-- The day of a year that begins in March; the day is 1 or more.
unfoldable pub day_of_year : ℕ → ℕ → ℕ
day_of_year month day = (153 * (if ltb 2 month then month - 3 else month + 9) + 2) / 5 + day - 1

-- The day within 400 years, for a year from 0 to 399.
unfoldable pub day_of_era : ℕ → ℕ → ℕ
day_of_era year_of_era day = year_of_era * 365 + year_of_era / 4 - year_of_era / 100 + day

-- `days_from_civil`. The year of the era is never negative.
unfoldable pub days_from_civil : ℤ → ℕ → ℕ → ℤ
unfolding ◌+ℤ◌ ◌-ℤ◌ ◌*ℤ◌
days_from_civil civil month day =
    let year = if leb month 2 then civil -ℤ pos 1 else civil in
    let era = div_trunc (if geb_ℤ year (pos 0) then year else year -ℤ pos 399) 400 in
    let year_of_era = pos_part (year -ℤ era *ℤ pos 400) in
    era *ℤ pos 146_097 +ℤ pos (day_of_era year_of_era (day_of_year month day)) -ℤ pos 719_468

-- The year and what follows it, by the form of the time.
unfoldable pub year_and_rest : ℕ → List ℕ → Option (ℕ × List ℕ)
year_and_rest tag text =
    if (tag == utc_time) && (length text == 13)
    then (elim (number text 0) [
      | none ↦ none
      | some short ↦ some ((if leb 50 short then 1900 + short else 2000 + short), drop 2 text)
    ])
    else if (tag == generalized_time) && (length text == 15)
    then (elim (number text 0) [
      | none ↦ none
      | some century ↦ elim (number text 2) [
        | none ↦ none
        | some short ↦ some (century * 100 + short, drop 4 text)
      ]
    ])
    else none

abbrev pub is_some_z : Option ℕ → Bool
is_some_z none = false
is_some_z (some c) = c == b'Z'

-- A date and a time of day.
pub record Moment : Type 0 where
  pub year : ℕ
  pub month : ℕ
  pub day : ℕ
  pub hour : ℕ
  pub minute : ℕ
  pub second : ℕ

unfoldable pub fields : ℕ → List ℕ → Option Moment
fields year rest = elim (number rest 0) [
  | none ↦ none
  | some month ↦ elim (number rest 2) [
    | none ↦ none
    | some day ↦ elim (number rest 4) [
      | none ↦ none
      | some hour ↦ elim (number rest 6) [
        | none ↦ none
        | some minute ↦ elim (number rest 8) [
          | none ↦ none
          | some second ↦ some (record {
            year = year;
            month = month;
            day = day;
            hour = hour;
            minute = minute;
            second = second;
          })
        ]
      ]
    ]
  ]
]

-- The checks of `time` on what it read.
unfoldable pub is_valid : Moment → Bool
is_valid m =
    leb 1 m.month
    && leb m.month 12
    && leb 1 m.day
    && leb m.day (days_in_month m.year m.month)
    && leb m.hour 23
    && leb m.minute 59
    && leb m.second 60

unfoldable pub epoch_secs : Moment → ℤ
unfolding ◌+ℤ◌ ◌*ℤ◌
epoch_secs m =
    days_from_civil (pos m.year) m.month m.day *ℤ pos 86_400
    +ℤ pos (m.hour * 3600 + m.minute * 60 + m.second)

-- `time`. The text is taken as bytes: each of them is tested, so one that is no UTF-8 is none.
unfoldable pub time : ℕ → List ℕ → Option ℤ
time tag text = elim (year_and_rest tag text) [
  | none ↦ none
  | some (year, rest) ↦ if not (is_some_z (last? rest)) then none else (elim (fields year rest) [
    | none ↦ none
    | some m ↦ if is_valid m then some (epoch_secs m) else none
  ])
]

-- The fields of a TBSCertificate from the serial number on: its tag and what follows it.
unfoldable pub after_version : List ℕ → Option Element
after_version fields = elim (next fields) [
  | none ↦ none
  | some (tag, contents, rest) ↦
      if tag == version_tag then next rest else some (tag, contents, rest)
]

-- The second time of a Validity.
unfoldable pub second_time : List ℕ → Option ℤ
second_time validity = elim (next validity) [
  | none ↦ none
  | some (tag, contents, rest) ↦ elim (next rest) [
    | none ↦ none
    | some (tag', text, rest') ↦ time tag' text
  ]
]

unfoldable pub not_after : List ℕ → Option ℤ
not_after der = elim (expect sequence_tag der) [
  | none ↦ none
  | some (certificate, trailing) ↦ elim (expect sequence_tag certificate) [
    | none ↦ none
    | some (tbs, signature) ↦ elim (after_version tbs) [
      | none ↦ none
      | some (tag, serial, rest) ↦
          if not (tag == integer_tag) then none else (elim (expect sequence_tag rest) [
            | none ↦ none
            | some (algorithm, rest') ↦ elim (expect sequence_tag rest') [
              | none ↦ none
              | some (issuer, rest'') ↦ elim (expect sequence_tag rest'') [
                | none ↦ none
                | some (validity, subject) ↦ second_time validity
              ]
            ]
          ])
    ]
  ]
]
