-- ===== src/Orchestration/Freshness.antt =====
-- libs/orchestration/freshness.py: the expected date of an update frequency, staleness, and the
-- status of a dataset with its upstream datasets. A computed date is its ordinal (Calendar).
pub mod Composite
pub mod Expected
pub mod Quarter
pub mod Tests
use optaic_trading.Prelude.{
  ℕ, zero, suc, ◌+◌, ◌-◌, ◌*◌, ◌/◌, ◌%◌, ◌≡◌, Bool, true, false, not, ◌&&◌, ◌||◌, Option, none,
  some, List, [], ◌∷◌, ◌++◌, String, ◌==◌, nat_eq, string_eq, nat_beq, ltb, leb, if◌then◌else◌,
  Result, ok, err, ◌>>=◌, contains,
}
use optaic_trading.Prelude.Dict.{Dict, get, put}
use optaic_trading.Calendar.{
  CalendarDate, Exception, value_error, out_of_fuel, is_leap, days_in_month, ordinal, weekday,
  sub_days,
}
use optaic_trading.Orchestration.StatusStore.{StatusRow, Store, get_status}

pub data DatasetStatus : Type 0 where
  not_initialized ready stale stale_source_delayed error : DatasetStatus

pub record UpdateFrequency : Type 0 where
  pub frequency : String
  pub grace_period_days : ℕ
  pub business_days_only : Bool
  pub day_of_week : Option ℕ
  pub day_of_month : Option ℕ

-- `UpdateFrequency()`
abbrev pub default_frequency : UpdateFrequency
default_frequency = record {
  frequency = "daily";
  grace_period_days = 0;
  business_days_only = false;
  day_of_week = none;
  day_of_month = none;
}

-- `date(y, m, d)`, with the ValueError of the constructor
unfoldable pub make_date : ℕ → ℕ → ℕ → Result Exception ℕ
make_date y m d =
    if leb 1 y && leb 1 m && leb m 12 && leb 1 d && leb d (days_in_month (is_leap y) m)
    then ok (ordinal (record { year = y; month = m; day = d }))
    else err value_error

-- `while result.weekday() >= 5: result -= timedelta(days=1)`
pub skip_weekend : ℕ → ℕ → Result Exception ℕ
skip_weekend zero n = err out_of_fuel
skip_weekend (suc fuel) n =
    let rest = sub_days n 1 >>= skip_weekend fuel in if leb 5 (weekday n) then rest else ok n

-- Three tests of the loop are enough: a weekend has two days.
pub get_previous_business_day : CalendarDate → Result Exception ℕ
unfolding skip_weekend
get_previous_business_day d = sub_days (ordinal d) 1 >>= skip_weekend 3

-- `self.day_of_week or 0`
abbrev pub or_zero : Option ℕ → ℕ
or_zero none = 0
or_zero (some n) = n

-- `(as_of.weekday() - dow) % 7` in Python is not negative.
abbrev pub days_since : ℕ → ℕ → ℕ
days_since n dow = (weekday n + 7 * dow - dow) % 7

pub expected_weekly : ℕ → ℕ → Result Exception ℕ
expected_weekly n dow = sub_days n (if nat_beq (days_since n dow) 0 then 7 else days_since n dow)

pub expected_quarterly : CalendarDate → Result Exception ℕ
expected_quarterly as_of =
    let quarter = (as_of.month - 1) / 3 in
    if nat_beq quarter 0
    then (if ltb 0 as_of.year then make_date (as_of.year - 1) 12 31 else err value_error)
    else if nat_beq (quarter * 3) 12
    then make_date as_of.year 12 31
    else (make_date as_of.year (quarter * 3 + 1) 1 >>= λ n. sub_days n 1)

pub get_expected_date : UpdateFrequency → CalendarDate → Result Exception ℕ
unfolding get_previous_business_day expected_weekly expected_quarterly
get_expected_date f as_of =
    if f.frequency == "daily"
    then (if f.business_days_only
        then get_previous_business_day as_of
        else sub_days (ordinal as_of) 1)
    else if f.frequency == "weekly"
    then expected_weekly (ordinal as_of) (or_zero f.day_of_week)
    else if f.frequency == "monthly"
    then (make_date as_of.year as_of.month 1 >>= λ n. sub_days n 1)
    else if f.frequency == "quarterly"
    then expected_quarterly as_of
    else ok (ordinal as_of)

pub is_stale : UpdateFrequency → Option ℕ → CalendarDate → Result Exception Bool
is_stale f none as_of = ok true
is_stale f (some last_data_date) as_of = get_expected_date f as_of >>= λ expected.
    sub_days expected f.grace_period_days >>= λ threshold. ok (ltb last_data_date threshold)

-- The entries of `update_frequency` in a configuration; a missing one is none.
pub record FrequencyConfig : Type 0 where
  pub frequency : Option String
  pub grace_period_days : Option ℕ
  pub business_days_only : Option Bool
  pub day_of_week : Option ℕ
  pub day_of_month : Option ℕ

abbrev pub get_default {ℓ} : {A : Type ℓ} → Option A → A → A
get_default none d = d
get_default (some a) d = a

-- What `getattr(dataset, "config_json", None)` holds under update_frequency, for each dataset.
abbrev pub Configs : Type 0
Configs = Dict (Option FrequencyConfig)

pub load_frequency : Configs → ℕ → UpdateFrequency
load_frequency datasets resource_id = elim (get resource_id datasets) [
  | none ↦ default_frequency
  | some none ↦ default_frequency
  | some (some config) ↦ record {
    frequency = get_default config.frequency "daily";
    grace_period_days = get_default config.grace_period_days 0;
    business_days_only = get_default config.business_days_only false;
    day_of_week = config.day_of_week;
    day_of_month = config.day_of_month;
  }
]

-- `value == text` for a column that may be NULL
abbrev pub is_text : Option String → String → Bool
is_text none text = false
is_text (some value) text = value == text

-- `calculate_staleness`, behind the lookup of the status record
pub staleness_of :
    Option StatusRow → UpdateFrequency → CalendarDate → Result Exception DatasetStatus
staleness_of none frequency as_of = ok not_initialized
staleness_of (some record_) frequency as_of =
    if is_text record_.last_pipeline_status "error" then ok error else elim record_.last_data_date [
      | none ↦ ok not_initialized
      | some date ↦
          if record_.source_delay_detected
          then ok stale_source_delayed
          else (is_stale frequency (some date) as_of >>= λ old. ok (if old then stale else ready))
    ]
