-- ===== src/Orchestration/Freshness/Composite/Status.antt =====
-- When a dataset, and a dataset with its upstream resources, counts as ready.
use optaic_trading.Prelude.{
  ℕ, ◌+◌, ◌<◌, ◌≤◌, ◌≡◌, ◌≢◌, ◌↔◌, inl, inr, false, Option, none, some, String, ◌==◌, string_eq, ok,
  arith, refl, ap, Bool-cases, Option-cases, >>=-eq-ok,
}
use optaic_trading.Prelude.Dict.{get}
use optaic_trading.Calendar.{CalendarDate, sub_days}
use text.Mathlib.TextEquality.{eq_iff}
use optaic_trading.Orchestration.StatusStore.{StatusRow, get_status}
use optaic_trading.Orchestration.Freshness.{
  not_initialized, ready, UpdateFrequency, FrequencyConfig, Configs, default_frequency, get_default,
  get_expected_date, is_stale, is_text, load_frequency, staleness_of,
}
use optaic_trading.Orchestration.Freshness.Composite.{World, calculate_staleness}

-- The frequency that the configuration of a dataset gives: that of a day where there is none.
pub data Configured (configs : Configs) (id : ℕ) : UpdateFrequency → Type 0 where
  no_dataset : get id configs ≡ none → Configured configs id default_frequency
  no_config : get id configs ≡ some none → Configured configs id default_frequency
  has_config :
      (config : FrequencyConfig)
      → get id configs ≡ some (some config)
      → Configured configs id (record {
        frequency = get_default config.frequency "daily";
        grace_period_days = get_default config.grace_period_days 0;
        business_days_only = get_default config.business_days_only false;
        day_of_week = config.day_of_week;
        day_of_month = config.day_of_month;
      })

-- The data reach the date that is expected, less the days of grace.
pub record IsRecent (f : UpdateFrequency) (today : CalendarDate) (date : ℕ) : Type 0 where
  pub expected_date : ℕ
  pub expected : get_expected_date f today ≡ ok expected_date
  pub in_calendar : f.grace_period_days < expected_date
  pub reached : expected_date ≤ date + f.grace_period_days

-- A dataset's record says that its data is current: the last run did not fail, there is data, no
-- delay is known, and the data is not older than the frequency allows.
pub record IsCurrent (w : World) (id : ℕ) : Type 0 where
  pub row : StatusRow
  pub date : ℕ
  pub frequency : UpdateFrequency
  pub recorded : get_status id w.store ≡ some row
  pub no_error : row.last_pipeline_status ≢ some "error"
  pub dated : row.last_data_date ≡ some date
  pub on_time : row.source_delay_detected ≡ false
  pub configured : Configured w.configs id frequency
  pub recent : IsRecent frequency w.today date

load_frequency-Configured :
    (configs : Configs) (id : ℕ) → Configured configs id (load_frequency configs id)
unfolding load_frequency
load_frequency-Configured configs id = elim (Option-cases (get id configs)) [
  | inl missing ↦ rw (missing, load_frequency) (no_dataset missing)
  | inr (none, here) ↦ rw (here, load_frequency) (no_config here)
  | inr (some config, here) ↦ rw (here, load_frequency) (has_config config here)
]

Configured-load_frequency :
    (configs : Configs) (id : ℕ) {f : UpdateFrequency}
    → Configured configs id f
    → load_frequency configs id ≡ f
unfolding load_frequency
Configured-load_frequency configs id (no_dataset missing) = rw (missing, load_frequency) refl
Configured-load_frequency configs id (no_config here) = rw (here, load_frequency) refl
Configured-load_frequency configs id (has_config config here) = rw (here, load_frequency) refl

is_stale-IsRecent :
    (f : UpdateFrequency) (today : CalendarDate) (date : ℕ)
    → is_stale f (some date) today ≡ ok false
    → IsRecent f today date
unfolding is_stale sub_days
is_stale-IsRecent f today date fresh =
    let (expected, is_expected, rest) = >>=-eq-ok (get_expected_date f today) _ fresh in
    let (threshold, is_threshold, last) =
      >>=-eq-ok (sub_days expected f.grace_period_days) _ rest in
    record {
      expected_date = expected;
      expected = is_expected;
      in_calendar = ground (arith, is_threshold);
      reached = ground (arith, is_threshold, last);
    }

IsRecent-is_stale :
    (f : UpdateFrequency) (today : CalendarDate) (date : ℕ)
    → IsRecent f today date
    → is_stale f (some date) today ≡ ok false
unfolding is_stale sub_days
IsRecent-is_stale f today date recent =
    let in_calendar = recent.in_calendar in
    let reached = recent.reached in rw (recent.expected) (ground (arith, in_calendar, reached))

is_text-false : (o : Option String) → is_text o "error" ≡ false → o ≢ some "error"
is_text-false none different e = cc
is_text-false (some status) different e =
    let is : status ≡ "error" = cc in
    absurd (ground (arith, different, (eq_iff status "error").1 is))

false-is_text : (o : Option String) → o ≢ some "error" → is_text o "error" ≡ false
false-is_text none different = refl
false-is_text (some status) different = elim (Bool-cases (status == "error")) [
  | inl same ↦ absurd (different (ap (λ (s : String). some s) ((eq_iff status "error").0 same)))
  | inr other ↦ other
]

staleness_of-ready :
    (row : StatusRow) (f : UpdateFrequency) (today : CalendarDate)
    → staleness_of (some row) f today ≡ ok ready
    → (is_text row.last_pipeline_status "error" ≡ false)
      × ((date : ℕ) × (row.last_data_date ≡ some date)
          × (row.source_delay_detected ≡ false)
          × (is_stale f (some date) today ≡ ok false))
unfolding staleness_of
staleness_of-ready row f today h = ground arith

ready-staleness_of :
    (row : StatusRow) (f : UpdateFrequency) (today : CalendarDate) (date : ℕ)
    → is_text row.last_pipeline_status "error" ≡ false
    → row.last_data_date ≡ some date
    → row.source_delay_detected ≡ false
    → is_stale f (some date) today ≡ ok false
    → staleness_of (some row) f today ≡ ok ready
unfolding staleness_of
ready-staleness_of row f today date fine dated on_time recent =
    rw (fine, dated, on_time, recent, staleness_of)

no_record :
    (f : UpdateFrequency) (today : CalendarDate)
    → staleness_of none f today ≡ ok ready
    → not_initialized ≡ ready
unfolding staleness_of
no_record f today h = cc

-- A dataset is ready exactly if it has a status record whose last run did not fail, with data, with
-- no known delay, and the data reach the date that its configured frequency expects, less the days
-- of grace, where that date is in the calendar.
pub calculate_staleness-ready :
    (w : World) (id : ℕ) → (calculate_staleness w id ≡ ok ready) ↔ IsCurrent w id
unfolding calculate_staleness
calculate_staleness-ready w id = (
  λ h. elim (Option-cases (get_status id w.store)) [
    | inl missing ↦ cc (no_record (load_frequency w.configs id) w.today (rw missing at h))
    | inr (row, found) ↦
        let (fine, (date, dated, on_time, recent)) =
          staleness_of-ready row (load_frequency w.configs id) w.today (rw found at h) in
        record {
          row = row;
          date = date;
          frequency = load_frequency w.configs id;
          recorded = found;
          no_error = is_text-false row.last_pipeline_status fine;
          dated = dated;
          on_time = on_time;
          configured = load_frequency-Configured w.configs id;
          recent = is_stale-IsRecent (load_frequency w.configs id) w.today date recent;
        }
  ],
  λ c.
      rw (c.recorded, Configured-load_frequency w.configs id c.configured)
        (ready-staleness_of c.row c.frequency w.today c.date
          (false-is_text c.row.last_pipeline_status c.no_error) c.dated c.on_time
          (IsRecent-is_stale c.frequency w.today c.date c.recent)),
)
