-- ===== src/Calendar/Order.antt =====
-- Months follow one another in the ordinals: the dates of a later month have larger ordinals.
use optaic_trading.Prelude.{
  ℕ, zero, suc, ◌+◌, ◌*◌, ◌≤◌, ◌<◌, ◌≡◌, inl, inr, Bool, true, false, not, ◌&&◌, ◌||◌, ltb, leb,
  if◌then◌else◌, arith, refl, Bool-cases,
}
use optaic_trading.Calendar.{
  CalendarDate, IsDate, is_leap, days_in_month, days_before_month, days_before_year, ordinal,
}

-- The number of a month, counted from the year 0.
abbrev pub month_index : CalendarDate → ℕ
month_index d = d.year * 12 + d.month

passes : (ℕ → Bool) → ℕ → Bool
passes test zero = true
passes test (suc k) = passes test k && test k

-- A test that passes up to a bound holds of each number below it.
passes_each : (test : ℕ → Bool) (k i : ℕ) → i < k → passes test k ≡ true → test i ≡ true
unfolding passes
passes_each test zero i below all = absurd (omega arith)
passes_each test (suc k) i below all = ground (arith, passes_each test k i)

-- In one year the days of a month end before a later month begins, and after day 365 or 366.
month_fits : Bool → ℕ → ℕ → Bool
month_fits leap m k =
    not (ltb 0 m && ltb m k)
    || leb (days_before_month leap m + days_in_month leap m) (days_before_month leap k)

year_fits : Bool → ℕ → Bool
year_fits leap m = leb (days_before_month leap m + days_in_month leap m) (if leap then 366 else 365)

months_table : (leap : Bool) → passes (λ m. passes (month_fits leap m) 13) 13 ≡ true
unfolding passes month_fits days_before_month days_in_month
months_table true = refl
months_table false = refl

years_table : (leap : Bool) → passes (year_fits leap) 13 ≡ true
unfolding passes year_fits days_before_month days_in_month
years_table true = refl
years_table false = refl

months_apart :
    (leap : Bool) (m k : ℕ)
    → 1 ≤ m
    → m < k
    → k ≤ 12
    → days_before_month leap m + days_in_month leap m ≤ days_before_month leap k
unfolding month_fits
months_apart leap m k pos lt top =
    let fits : month_fits leap m k ≡ true =
      passes_each (month_fits leap m) 13 k (omega arith)
        (passes_each (λ i. passes (month_fits leap i) 13) 13 m (omega arith) (months_table leap)) in
    ground arith

months_within_year :
    (leap : Bool) (m : ℕ)
    → m ≤ 12
    → days_before_month leap m + days_in_month leap m ≤ (if leap then 366 else 365)
unfolding year_fits
months_within_year leap m top =
    let fits : year_fits leap m ≡ true =
      passes_each (year_fits leap) 13 m (omega arith) (years_table leap) in
    ground arith

-- The next year begins where this one ends.
pub years_follow :
    (y : ℕ)
    → 1 ≤ y
    → days_before_year (y + 1) ≡ days_before_year y + (if is_leap y then 366 else 365)
unfolding days_before_year is_leap
years_follow y pos = ground arith

years_apart : (y z : ℕ) → y ≤ z → days_before_year y ≤ days_before_year z
unfolding days_before_year
years_apart y z h = omega arith

-- A date lies behind all dates of an earlier month.
pub ordinal_lt :
    (c d : CalendarDate)
    → IsDate c
    → IsDate d
    → month_index c < month_index d
    → ordinal c < ordinal d
unfolding ordinal
ordinal_lt c d vc vd lt = elim (Bool-cases (ltb c.year d.year)) [
  | inl earlier ↦ ground (
    arith,
    years_follow c.year,
    years_apart (c.year + 1) d.year,
    months_within_year (is_leap c.year) c.month,
  )
  | inr same ↦
      let year : c.year ≡ d.year = ground arith in
      rw year (ground (arith, months_apart (is_leap d.year) c.month d.month))
]
