-- ===== src/Orchestration/Freshness/Expected.antt =====
-- What the expected dates are, by the calendar: the latest day of the period before the date.
use optaic_trading.Prelude.{
  ℕ, ◌+◌, ◌-◌, ◌%◌, ◌≤◌, ◌<◌, ◌≡◌, ◌↔◌, inl, inr, true, nat_beq, ltb, if◌then◌else◌, arith, refl,
  Bool-cases, ok, ◌>>=◌, ap₂,
}
use optaic_trading.Calendar.{
  CalendarDate, IsDate, is_leap, days_in_month, days_before_month, days_before_year, ordinal,
  weekday, sub_days,
}
use optaic_trading.Calendar.Order.{month_index, ordinal_lt}
use optaic_trading.Orchestration.Freshness.{
  UpdateFrequency, make_date, skip_weekend, or_zero, days_since, get_expected_date,
}

-- A working day before day `n`, with nothing but weekend between them.
pub record IsBusinessDayBefore (n e : ℕ) : Type 0 where
  pub before : e < n
  pub working : weekday e < 5
  pub latest : (m : ℕ) → e < m → m < n → 5 ≤ weekday m

previous_business_day :
    (n : ℕ) → 3 < n → (sub_days n 1 >>= skip_weekend 3) ≡ ok (n - 1 - (weekday (n - 1) - 4))
unfolding sub_days skip_weekend weekday
previous_business_day n late = ground arith

-- On a daily schedule over business days the expected date of a date past the first three is the
-- latest Monday to Friday before it.
pub expected-business_day :
    (f : UpdateFrequency) (as_of : CalendarDate)
    → f.frequency ≡ "daily"
    → f.business_days_only ≡ true
    → 3 < ordinal as_of
    → (e : ℕ) × (get_expected_date f as_of ≡ ok e) × IsBusinessDayBefore (ordinal as_of) e
unfolding get_expected_date weekday sub_days
expected-business_day f as_of daily business late =
    let n = ordinal as_of in
    (
      n - 1 - (weekday (n - 1) - 4),
      simp (daily, business) (previous_business_day n late),
      record {
        before = omega arith;
        working = omega arith;
        latest = λ m after before. omega arith;
      },
    )

-- On a weekly schedule the expected date is the latest day before the date that has the weekday of
-- the schedule (Monday where none is set).
pub expected-weekday :
    (f : UpdateFrequency) (as_of : CalendarDate)
    → f.frequency ≡ "weekly"
    → 7 < ordinal as_of
    → (e : ℕ) × (get_expected_date f as_of ≡ ok e)
      × (weekday e ≡ or_zero f.day_of_week % 7)
      × (e < ordinal as_of)
      × (ordinal as_of ≤ e + 7)
unfolding get_expected_date weekday sub_days
expected-weekday f as_of weekly late =
    let n = ordinal as_of in
    let back = days_since n (or_zero f.day_of_week) in
    (
      n - (if nat_beq back 0 then 7 else back),
      simp (weekly) (ground arith),
      ground arith,
      ground arith,
      ground arith,
    )

not_earlier :
    (first d : CalendarDate)
    → IsDate first
    → first.day ≡ 1
    → IsDate d
    → month_index first ≤ month_index d
    → ¬ (ordinal d < ordinal first)
unfolding ordinal
not_earlier first d vf one vd le lt = elim (Bool-cases (ltb (month_index first) (month_index d))) [
  | inl later ↦ omega (arith, ordinal_lt first d vf vd (ground arith))
  | inr same ↦
      let year : first.year ≡ d.year =
        ground (arith, vf.month_le, vd.month_le, vf.month_pos, vd.month_pos) in
      let month : first.month ≡ d.month = ground arith in
      let base : days_before_year first.year + days_before_month (is_leap first.year) first.month
          ≡ days_before_year d.year + days_before_month (is_leap d.year) d.month =
        ap₂ (λ y m. days_before_year y + days_before_month (is_leap y) m) year month in
      omega arith
]

-- A date with day 1 stands between the dates of the earlier months and the rest.
before_month :
    (first d : CalendarDate)
    → IsDate first
    → first.day ≡ 1
    → IsDate d
    → (ordinal d < ordinal first) ↔ (month_index d < month_index first)
before_month first d vf one vd = (
  λ lt. elim (Bool-cases (ltb (month_index d) (month_index first))) [
    | inl earlier ↦ ground arith
    | inr later ↦ absurd (not_earlier first d vf one vd (ground arith) lt)
  ],
  λ lt. ordinal_lt d first vd vf lt,
)

-- `make_date` of the first day of a month of a valid date, and the day before it
pub day_before :
    (y m : ℕ)
    → IsDate (record { year = y; month = m; day = 1 })
    → 1 < ordinal (record { year = y; month = m; day = 1 })
    → (make_date y m 1 >>= λ n. sub_days n 1)
      ≡ ok (ordinal (record { year = y; month = m; day = 1 }) - 1)
unfolding make_date sub_days
day_before y m v late = ground (arith, v.year_pos, v.month_pos, v.month_le, v.day_le)

abbrev day_one : CalendarDate
day_one = record { year = 1; month = 1; day = 1 }

day_one-IsDate : IsDate day_one
unfolding days_in_month
day_one-IsDate = omega arith

ordinal-day_one : ordinal day_one ≡ 1
unfolding ordinal days_before_year days_before_month is_leap
ordinal-day_one = refl

pub late_month : (d : CalendarDate) → IsDate d → 13 < month_index d → 1 < ordinal d
late_month d v late = omega (arith, ordinal_lt day_one d day_one-IsDate v late, ordinal-day_one)

ordinal_pos : (d : CalendarDate) → IsDate d → 1 ≤ ordinal d
unfolding ordinal
ordinal_pos d v = omega (arith, v.day_pos)

first_of_month : (d : CalendarDate) → IsDate d → IsDate (record d { day = 1 })
first_of_month d v = omega arith

-- What the day before the first of a month is: the last day of the months before.
abbrev pub IsLastBefore : ℕ → (CalendarDate → Type 0) → Type 0
IsLastBefore e Earlier = (d : CalendarDate) → IsDate d → (ordinal d ≤ e) ↔ Earlier d

pub day_before-IsLastBefore :
    (first : CalendarDate)
    → IsDate first
    → first.day ≡ 1
    → IsLastBefore (ordinal first - 1) (λ d. month_index d < month_index first)
day_before-IsLastBefore first v one d vd =
    let (earlier, before) = before_month first d v one vd in
    let pos : 1 ≤ ordinal first = ordinal_pos first v in
    (λ le. earlier (omega arith), λ lt. omega (arith, before lt))

-- On a monthly schedule the expected date of a date behind January of year 1 is the last day of the
-- month before: the dates up to it are exactly those of earlier months.
pub expected-month_end :
    (f : UpdateFrequency) (as_of : CalendarDate)
    → f.frequency ≡ "monthly"
    → IsDate as_of
    → 13 < month_index as_of
    → (e : ℕ) × (get_expected_date f as_of ≡ ok e)
      × IsLastBefore e (λ d. month_index d < month_index as_of)
unfolding get_expected_date
expected-month_end f as_of monthly v late =
    let first : CalendarDate = record as_of { day = 1 } in
    let vf : IsDate first = first_of_month as_of v in
    (
      ordinal first - 1,
      simp (monthly) (day_before as_of.year as_of.month vf (late_month first vf late)),
      day_before-IsLastBefore first vf refl,
    )
