-- ===== src/Orchestration/Freshness/Tests.antt =====
-- Expected dates of concrete schedules, and the theorems about them there.
use optaic_trading.Prelude.{
  ℕ, ◌+◌, ◌%◌, ◌≤◌, ◌<◌, ◌≡◌, refl, true, false, none, ok, arith, String, Bool,
}
use optaic_trading.Calendar.{
  CalendarDate, ordinal, weekday, sub_days, days_before_year, days_before_month, days_in_month,
  is_leap,
}
use optaic_trading.Calendar.Order.{month_index}
use optaic_trading.Orchestration.Freshness.{
  UpdateFrequency, default_frequency, make_date, get_expected_date, or_zero,
}
use optaic_trading.Orchestration.Freshness.Expected.{
  IsBusinessDayBefore, IsLastBefore, expected-business_day, expected-weekday, expected-month_end,
}
use optaic_trading.Orchestration.Freshness.Quarter.{quarter_index, expected-quarter_end}

-- Monday, June 17, 2024
abbrev pub monday : CalendarDate
monday = record { year = 2024; month = 6; day = 17 }

calendar : Unit {0}
unfolding ordinal days_before_year days_before_month days_in_month is_leap weekday sub_days
calendar = tt

monday-ordinal : ordinal monday ≡ 739054
unfolding calendar
monday-ordinal = refl

abbrev pub on : String → Bool → UpdateFrequency
on frequency business = record default_frequency {
  frequency = frequency;
  business_days_only = business;
}

-- The last working day before is Friday, June 14.
friday : get_expected_date (on "daily" true) monday ≡ ok 739051
unfolding calendar get_expected_date
friday = refl

-- The quarter before ends on March 31, 2024.
quarter_end : get_expected_date (on "quarterly" false) monday ≡ ok 738976
unfolding calendar get_expected_date make_date
quarter_end = refl

expected-business_day_example :
    (e : ℕ) × (get_expected_date (on "daily" true) monday ≡ ok e)
    × IsBusinessDayBefore (ordinal monday) e
unfolding calendar
expected-business_day_example =
    expected-business_day (on "daily" true) monday refl refl (omega arith)

expected-weekday_example :
    (e : ℕ) × (get_expected_date (on "weekly" false) monday ≡ ok e)
    × (weekday e ≡ or_zero none % 7)
    × (e < ordinal monday)
    × (ordinal monday ≤ e + 7)
unfolding calendar
expected-weekday_example = expected-weekday (on "weekly" false) monday refl (omega arith)

expected-month_end_example :
    (e : ℕ) × (get_expected_date (on "monthly" false) monday ≡ ok e)
    × IsLastBefore e (λ d. month_index d < month_index monday)
unfolding calendar
expected-month_end_example =
    expected-month_end (on "monthly" false) monday refl (omega arith) (omega arith)

expected-quarter_end_example :
    (e : ℕ) × (get_expected_date (on "quarterly" false) monday ≡ ok e)
    × IsLastBefore e (λ d. quarter_index d < quarter_index monday)
unfolding calendar
expected-quarter_end_example =
    expected-quarter_end (on "quarterly" false) monday refl (omega arith) (omega arith)
