-- ===== src/Calendar.antt =====
-- The part of Python's `datetime.date` that the program uses: the proleptic Gregorian calendar,
-- the ordinal of a date, its weekday (0 is Monday) and subtraction of days. Day 1 is 0001-01-01,
-- the smallest date: a subtraction that would pass it raises OverflowError.
pub mod Order
use optaic_trading.Prelude.{
  ℕ, zero, suc, ◌+◌, ◌-◌, ◌*◌, ◌/◌, ◌%◌, ◌≤◌, ◌<◌, ◌≡◌, Bool, true, false, not, ◌&&◌, ◌||◌, List,
  [], ◌∷◌, nat_beq, ltb, leb, if◌then◌else◌, Result, ok, err,
}

pub record CalendarDate : Type 0 where
  pub year : ℕ
  pub month : ℕ
  pub day : ℕ

pub data Exception : Type 0 where
  overflow_error value_error key_error out_of_fuel : Exception

unfoldable pub is_leap : ℕ → Bool
is_leap y = nat_beq (y % 4) 0 && (not (nat_beq (y % 100) 0) || nat_beq (y % 400) 0)

abbrev nth : List ℕ → ℕ → ℕ
nth [] i = 0
nth (x ∷ xs) zero = x
nth (x ∷ xs) (suc i) = nth xs i

-- The days of a month, and those before it in its year; month 0 stands for no month.
unfoldable pub days_in_month : Bool → ℕ → ℕ
days_in_month leap m =
    nth (0 ∷ 31 ∷ (if leap then 29 else 28) ∷ 31 ∷ 30 ∷ 31 ∷ 30 ∷ 31 ∷ 31 ∷ 30 ∷ 31 ∷ 30 ∷ 31 ∷ [])
      m

unfoldable pub days_before_month : Bool → ℕ → ℕ
days_before_month leap m =
    nth (0 ∷ 0 ∷ 31 ∷ 59 ∷ 90 ∷ 120 ∷ 151 ∷ 181 ∷ 212 ∷ 243 ∷ 273 ∷ 304 ∷ 334 ∷ []) m
    + (if leap && ltb 2 m then 1 else 0)

unfoldable pub days_before_year : ℕ → ℕ
days_before_year y = (y - 1) * 365 + (y - 1) / 4 - (y - 1) / 100 + (y - 1) / 400

-- `date.toordinal`
unfoldable pub ordinal : CalendarDate → ℕ
ordinal d = days_before_year d.year + days_before_month (is_leap d.year) d.month + d.day

-- `date.weekday`, of the date with a given ordinal
unfoldable pub weekday : ℕ → ℕ
weekday n = (n + 6) % 7

-- `d - timedelta(days=k)`, on ordinals
unfoldable pub sub_days : ℕ → ℕ → Result Exception ℕ
sub_days n k = if ltb k n then ok (n - k) else err overflow_error

-- The dates that Python can represent, but for the bound on the year.
pub record IsDate (d : CalendarDate) : Type 0 where
  pub year_pos : 1 ≤ d.year
  pub month_pos : 1 ≤ d.month
  pub month_le : d.month ≤ 12
  pub day_pos : 1 ≤ d.day
  pub day_le : d.day ≤ days_in_month (is_leap d.year) d.month
