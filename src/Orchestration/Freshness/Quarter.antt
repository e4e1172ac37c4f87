-- ===== src/Orchestration/Freshness/Quarter.antt =====
-- The expected date on a quarterly schedule, by the calendar.
use optaic_trading.Prelude.{
  ℕ, zero, suc, ◌+◌, ◌-◌, ◌*◌, ◌/◌, ◌≤◌, ◌<◌, ◌≡◌, ◌↔◌, inl, inr, Bool, false, nat_beq,
  if◌then◌else◌, arith, refl, Bool-cases, ok, subst,
}
use optaic_trading.Calendar.{
  CalendarDate, IsDate, is_leap, days_in_month, days_before_month, days_before_year, ordinal,
}
use optaic_trading.Calendar.Order.{years_follow}
use optaic_trading.Orchestration.Freshness.Expected.{
  day_before, late_month, day_before-IsLastBefore, IsLastBefore,
}
use optaic_trading.Orchestration.Freshness.{
  UpdateFrequency, make_date, expected_quarterly, get_expected_date,
}

abbrev pub quarter_index : CalendarDate → ℕ
quarter_index d = d.year * 4 + (d.month - 1) / 3

month_of_quarter : (leap : Bool) (q : ℕ) → q ≤ 3 → 1 ≤ days_in_month leap (q * 3 + 1)
unfolding days_in_month
month_of_quarter leap zero h = omega arith
month_of_quarter leap (suc zero) h = omega arith
month_of_quarter leap (suc (suc zero)) h = omega arith
month_of_quarter leap (suc (suc (suc zero))) h = omega arith
month_of_quarter leap (suc (suc (suc (suc q)))) h = absurd (omega arith)

-- December 31 stands before January 1.
last_of_year :
    (y : ℕ)
    → 2 ≤ y
    → make_date (y - 1) 12 31 ≡ ok (ordinal (record { year = y; month = 1; day = 1 }) - 1)
unfolding make_date ordinal days_in_month days_before_month
last_of_year y h =
    let follow : days_before_year y
        ≡ days_before_year (y - 1) + (if is_leap (y - 1) then 366 else 365) =
      subst
        (λ n.
          days_before_year n ≡ days_before_year (y - 1) + (if is_leap (y - 1) then 366 else 365))
        (omega arith) (years_follow (y - 1) (omega arith)) in
    ground arith

first_of_quarter : CalendarDate → CalendarDate
first_of_quarter d = record { year = d.year; month = (d.month - 1) / 3 * 3 + 1; day = 1 }

first_of_quarter-IsDate : (d : CalendarDate) → IsDate d → IsDate (first_of_quarter d)
unfolding first_of_quarter
first_of_quarter-IsDate d v =
    let q = (d.month - 1) / 3 in
    let small : q ≤ 3 = omega (arith, v.month_le) in
    record {
      year_pos = v.year_pos;
      month_pos = omega arith;
      month_le = omega arith;
      day_pos = omega arith;
      day_le = month_of_quarter (is_leap d.year) q small;
    }

expected_quarterly_lem :
    (as_of : CalendarDate)
    → IsDate as_of
    → 4 < quarter_index as_of
    → expected_quarterly as_of ≡ ok (ordinal (first_of_quarter as_of) - 1)
unfolding expected_quarterly first_of_quarter
expected_quarterly_lem as_of v late =
    let q = (as_of.month - 1) / 3 in
    elim (Bool-cases (nat_beq q 0)) [
      | inl first ↦
          let month : q * 3 + 1 ≡ 1 = ground arith in
          rw (first, month) (ground (arith, last_of_year as_of.year (omega arith)))
      | inr later ↦
          let small : nat_beq (q * 3) 12 ≡ false = ground (arith, v.month_le) in
          let vf = first_of_quarter-IsDate as_of v in
          rw (later, small)
            (day_before as_of.year (q * 3 + 1) vf
              (late_month (first_of_quarter as_of) vf (ground arith)))
    ]

quarter_before :
    (as_of d : CalendarDate)
    → IsDate as_of
    → IsDate d
    → (ordinal d ≤ ordinal (first_of_quarter as_of) - 1) ↔ (quarter_index d < quarter_index as_of)
unfolding first_of_quarter
quarter_before as_of d v vd =
    let (le, ge) =
      day_before-IsLastBefore (first_of_quarter as_of) (first_of_quarter-IsDate as_of v) refl d
        vd in
    (λ h. omega (arith, le h, vd.month_pos), λ h. ge (omega (arith, vd.month_pos)))

-- On a quarterly schedule the expected date of a date behind the first quarter of year 1 is the
-- last day of the quarter before: the dates up to it are exactly those of earlier quarters.
pub expected-quarter_end :
    (f : UpdateFrequency) (as_of : CalendarDate)
    → f.frequency ≡ "quarterly"
    → IsDate as_of
    → 4 < quarter_index as_of
    → (e : ℕ) × (get_expected_date f as_of ≡ ok e)
      × IsLastBefore e (λ d. quarter_index d < quarter_index as_of)
unfolding get_expected_date
expected-quarter_end f as_of quarterly v late =
    let first = first_of_quarter as_of in
    let vf = first_of_quarter-IsDate as_of v in
    (
      ordinal first - 1,
      simp (quarterly) (expected_quarterly_lem as_of v late),
      λ d vd. quarter_before as_of d v vd,
    )
