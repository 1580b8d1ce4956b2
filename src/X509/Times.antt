-- ===== src/X509/Times.antt =====
-- The reader of times (crates/anago-core/src/x509.rs) against how a time is written.
use anago.Prelude.{
  ℕ, ◌+◌, ◌*◌, ◌/◌, ◌%◌, ◌≤◌, ◌≡◌, refl, sym, ap, ◌∙◌, ◌↔◌, ◌⊎◌, inl, inr, true, ◌&&◌, List, [],
  ◌∷◌, ◌++◌, some, ◌==◌, nat_eq, if◌then◌else◌, leb, length, drop, arith, Bool-cases, Option-cases,
}
use anago.Prelude.Int.{ℤ}
use anago.Text.{last?}
use anago.X509.Digits.{two, pair-two, number-parts, number-le}
use anago.X509.{
  utc_time, generalized_time, number, year_and_rest, is_some_z, Moment, fields, is_valid,
  epoch_secs, time, days_in_month,
}

-- A day that its month has, in that year, and a time of day; the second 60 is let through.
pub record IsMoment (m : Moment) : Type 0 where
  pub month_pos : 1 ≤ m.month
  pub month_le : m.month ≤ 12
  pub day_pos : 1 ≤ m.day
  pub day_le : m.day ≤ days_in_month m.year m.month
  pub hour_le : m.hour ≤ 23
  pub minute_le : m.minute ≤ 59
  pub second_le : m.second ≤ 60

-- A moment after its year.
abbrev pub after_year : Moment → List ℕ
after_year m = two m.month ++ two m.day ++ two m.hour ++ two m.minute ++ two m.second ++ b'Z' ∷ []

-- A moment as UTCTime writes it, from 1950 to 2049, or as GeneralizedTime does, up to 9999.
abbrev pub Spells : ℕ → List ℕ → Moment → Type 0
Spells tag text m =
    ((tag ≡ utc_time)
      × (1950 ≤ m.year)
      × (m.year ≤ 2049)
      × (text ≡ two (m.year % 100) ++ after_year m))
    ⊎ ((tag ≡ generalized_time)
        × (m.year ≤ 9999)
        × (text ≡ two (m.year / 100) ++ two (m.year % 100) ++ after_year m))

is_valid_iff : (m : Moment) → (is_valid m ≡ true) ↔ IsMoment m
unfolding is_valid
is_valid_iff m = (
  λ h. record {
    month_pos = ground arith;
    month_le = ground arith;
    day_pos = ground arith;
    day_le = ground arith;
    hour_le = ground arith;
    minute_le = ground arith;
    second_le = ground arith;
  },
  λ v.
      ground
        (arith, v.month_pos, v.month_le, v.day_pos, v.day_le, v.hour_le, v.minute_le, v.second_le),
)

days_in_month-le : (year month : ℕ) → days_in_month year month ≤ 31
unfolding days_in_month
days_in_month-le year month = ground arith

fields-parts :
    (year : ℕ) (rest : List ℕ) {m : Moment}
    → fields year rest ≡ some m
    → (m.year ≡ year)
      × (number rest 0 ≡ some m.month)
      × (number rest 2 ≡ some m.day)
      × (number rest 4 ≡ some m.hour)
      × (number rest 6 ≡ some m.minute)
      × (number rest 8 ≡ some m.second)
unfolding fields
fields-parts year rest h = ground arith

number-after_year :
    (m : Moment)
    → IsMoment m
    → (number (after_year m) 0 ≡ some m.month)
      × (number (after_year m) 2 ≡ some m.day)
      × (number (after_year m) 4 ≡ some m.hour)
      × (number (after_year m) 6 ≡ some m.minute)
      × (number (after_year m) 8 ≡ some m.second)
unfolding number
number-after_year m v = (
  pair-two m.month (drop 2 (after_year m)) (omega (arith, v.month_le)),
  pair-two m.day (drop 4 (after_year m)) (omega (arith, v.day_le, days_in_month-le m.year m.month)),
  pair-two m.hour (drop 6 (after_year m)) (omega (arith, v.hour_le)),
  pair-two m.minute (drop 8 (after_year m)) (omega (arith, v.minute_le)),
  pair-two m.second (drop 10 (after_year m)) (omega (arith, v.second_le)),
)

fields-after_year : (m : Moment) → IsMoment m → fields m.year (after_year m) ≡ some m
unfolding fields
fields-after_year m v =
    let (month, day, hour, minute, second) = number-after_year m v in
    rw (fields, month, day, hour, minute, second) refl

single : (xs : List ℕ) → length xs ≡ 1 → (z : ℕ) × (xs ≡ z ∷ [])
single [] h = absurd (omega arith)
single (z ∷ []) h = (z, refl)
single (z ∷ y ∷ xs) h = absurd (omega arith)

-- Eleven characters that are read and end in a Z are those of the moment.
after_year_lem :
    (year : ℕ) (rest : List ℕ) {m : Moment}
    → length rest ≡ 11
    → is_some_z (last? rest) ≡ true
    → fields year rest ≡ some m
    → (m.year ≡ year) × (rest ≡ after_year m)
after_year_lem year rest {m} long z f =
    let (same, month, day, hour, minute, second) = fields-parts year rest f in
    let spelt : rest
        ≡ two m.month ++ two m.day ++ two m.hour ++ two m.minute ++ two m.second ++ drop 10 rest =
      number-parts rest 0 month
      ∙ ap (λ t. two m.month ++ t) (number-parts rest 2 day)
      ∙ ap (λ t. two m.month ++ two m.day ++ t) (number-parts rest 4 hour)
      ∙ ap (λ t. two m.month ++ two m.day ++ two m.hour ++ t) (number-parts rest 6 minute)
      ∙ ap (λ t. two m.month ++ two m.day ++ two m.hour ++ two m.minute ++ t)
          (number-parts rest 8 second) in
    let (c, last) = single (drop 10 rest) (omega (arith, ap length spelt, long)) in
    let whole : rest
        ≡ two m.month ++ two m.day ++ two m.hour ++ two m.minute ++ two m.second ++ c ∷ [] =
      spelt
      ∙ ap (λ t. two m.month ++ two m.day ++ two m.hour ++ two m.minute ++ two m.second ++ t)
          last in
    let ends : (c == b'Z') ≡ true = sym (ap (λ t. is_some_z (last? t)) whole) ∙ z in
    let is_z : c ≡ b'Z' = ground arith in
    (
      same,
      whole
          ∙ ap
              (λ k.
                two m.month ++ two m.day ++ two m.hour ++ two m.minute ++ two m.second ++ k ∷ [])
              is_z,
    )

-- The text of a time, from its year on.
year_and_rest-Spells :
    (tag : ℕ) (text : List ℕ) {year : ℕ} {rest : List ℕ} {m : Moment}
    → year_and_rest tag text ≡ some (year, rest)
    → is_some_z (last? rest) ≡ true
    → fields year rest ≡ some m
    → Spells tag text m
unfolding year_and_rest
year_and_rest-Spells tag text {year} {rest} {m} h z f =
    elim (Bool-cases ((tag == utc_time) && (length text == 13))) [
      | inl utc ↦ elim (Option-cases (number text 0)) [
        | inl e ↦ absurd (ground (arith, rw (utc, year_and_rest, e) at h))
        | inr (short, e) ↦
            let read : some ((if leb 50 short then 1900 + short else 2000 + short), drop 2 text)
                ≡ some (year, rest) =
              rw (utc, year_and_rest, e) at h in
            let left : drop 2 text ≡ rest = ground (arith, read) in
            let front : text ≡ two short ++ rest =
              number-parts text 0 e ∙ ap (λ t. two short ++ t) left in
            let long : length rest ≡ 11 = ground (arith, utc, ap length front) in
            let (same, spelt) = after_year_lem year rest {m = m} long z f in
            let small = number-le text 0 e in
            let dated : (1950 ≤ m.year) × (m.year ≤ 2049) × (short ≡ m.year % 100) =
              ground (arith, read, same, small) in
            inl (
              ground (arith, utc),
              dated.0,
              dated.1,
              front ∙ ap (λ t. two short ++ t) spelt ∙ ap (λ n. two n ++ after_year m) dated.2,
            )
      ]
      | inr other ↦ elim (Bool-cases ((tag == generalized_time) && (length text == 15))) [
        | inr bad ↦ absurd (ground (arith, rw (other, year_and_rest, bad) at h))
        | inl long ↦ elim (Option-cases (number text 0)) [
          | inl e ↦ absurd (ground (arith, rw (other, year_and_rest, long, e) at h))
          | inr (century, e) ↦ elim (Option-cases (number text 2)) [
            | inl g ↦ absurd (ground (arith, rw (other, year_and_rest, long, e, g) at h))
            | inr (short, g) ↦
                let read : some (century * 100 + short, drop 4 text) ≡ some (year, rest) =
                  rw (other, year_and_rest, long, e, g) at h in
                let left : drop 4 text ≡ rest = ground (arith, read) in
                let front : text ≡ two century ++ two short ++ rest =
                  number-parts text 0 e
                  ∙ ap (λ t. two century ++ t)
                      (number-parts text 2 g ∙ ap (λ t. two short ++ t) left) in
                let eleven : length rest ≡ 11 = ground (arith, long, ap length front) in
                let (same, spelt) = after_year_lem year rest {m = m} eleven z f in
                let tens = number-le text 0 e in
                let ones = number-le text 2 g in
                let dated : (m.year ≤ 9999) × (century ≡ m.year / 100) × (short ≡ m.year % 100) =
                  ground (arith, read, same, tens, ones) in
                inr (
                  ground (arith, long),
                  dated.0,
                  front
                      ∙ ap (λ t. two century ++ two short ++ t) spelt
                      ∙ ap (λ n. two n ++ two short ++ after_year m) dated.1
                      ∙ ap (λ n. two (m.year / 100) ++ two n ++ after_year m) dated.2,
                )
          ]
        ]
      ]
    ]

year_and_rest_utc :
    (m : Moment)
    → 1950 ≤ m.year
    → m.year ≤ 2049
    → year_and_rest utc_time (two (m.year % 100) ++ after_year m) ≡ some (m.year, after_year m)
unfolding year_and_rest number
year_and_rest_utc m low high =
    let short = pair-two (m.year % 100) (after_year m) (omega arith) in
    let dated : (if leb 50 (m.year % 100) then 1900 + m.year % 100 else 2000 + m.year % 100)
        ≡ m.year =
      ground arith in
    rw (short, dated) refl

year_and_rest_generalized :
    (m : Moment)
    → m.year ≤ 9999
    → year_and_rest generalized_time (two (m.year / 100) ++ two (m.year % 100) ++ after_year m)
      ≡ some (m.year, after_year m)
unfolding year_and_rest number
year_and_rest_generalized m high =
    let century = pair-two (m.year / 100) (two (m.year % 100) ++ after_year m) (omega arith) in
    let short = pair-two (m.year % 100) (after_year m) (omega arith) in
    let dated : m.year / 100 * 100 + m.year % 100 ≡ m.year = omega arith in
    rw (century, short, dated) refl

Spells-year_and_rest :
    (tag : ℕ) (text : List ℕ) (m : Moment)
    → Spells tag text m
    → year_and_rest tag text ≡ some (m.year, after_year m)
Spells-year_and_rest tag text m (inl (t, low, high, spelt)) =
    ap (λ x. year_and_rest x text) t
    ∙ ap (year_and_rest utc_time) spelt
    ∙ year_and_rest_utc m low high
Spells-year_and_rest tag text m (inr (t, high, spelt)) =
    ap (λ x. year_and_rest x text) t
    ∙ ap (year_and_rest generalized_time) spelt
    ∙ year_and_rest_generalized m high

-- A time is read exactly where the text writes a moment that exists, in the form of the tag: its
-- month has that day, in that year, and the year is one that the form can write. What is read is the
-- number of that moment. The second 60 is let through.
pub time-IsMoment_iff :
    (tag : ℕ) (text : List ℕ) (t : ℤ)
    → (time tag text ≡ some t)
      ↔ ((m : Moment) × IsMoment m × Spells tag text m × (t ≡ epoch_secs m))
unfolding time
time-IsMoment_iff tag text t = (
  λ h. elim (Option-cases (year_and_rest tag text)) [
    | inl e ↦ absurd (ground (arith, rw (e, time) at h))
    | inr ((year, rest), e) ↦ elim (Bool-cases (is_some_z (last? rest))) [
      | inr z ↦ absurd (ground (arith, rw (e, time, z) at h))
      | inl z ↦ elim (Option-cases (fields year rest)) [
        | inl f ↦ absurd (ground (arith, rw (e, time, z, f) at h))
        | inr (m, f) ↦ elim (Bool-cases (is_valid m)) [
          | inr bad ↦ absurd (ground (arith, rw (e, time, z, f, bad) at h))
          | inl good ↦
              let same : some (epoch_secs m) ≡ some t = rw (e, time, z, f, good) at h in
              let value : epoch_secs m ≡ t = ground arith in
              (m, (is_valid_iff m).0 good, year_and_rest-Spells tag text {m = m} e z f, sym value)
        ]
      ]
    ]
  ],
  λ (m, v, spelt, value).
      let good = (is_valid_iff m).1 v in
      rw (Spells-year_and_rest tag text m spelt, time, fields-after_year m v, good)
        (ap some (sym value)),
)
