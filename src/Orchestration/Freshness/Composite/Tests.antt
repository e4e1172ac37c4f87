-- ===== src/Orchestration/Freshness/Composite/Tests.antt =====
-- Reports on a small table, and the theorems about them there.
use optaic_trading.Prelude.{ℕ, ◌≡◌, ◌≢◌, ◌↔◌, refl, true, false, some, ok, [], ◌∷◌, contains}
use optaic_trading.Database.{stored}
use optaic_trading.Calendar.{
  ordinal, weekday, sub_days, days_before_year, days_before_month, days_in_month, is_leap,
}
use optaic_trading.Orchestration.StatusStore.{StatusRow, blank_status, get_status}
use optaic_trading.Orchestration.Lineage.Table.{select_upstream}
use optaic_trading.Orchestration.Lineage.Traversal.{Reach, resolve_upstream_dependencies}
use optaic_trading.Orchestration.Lineage.Traversal.Correct.{upstream_link}
use optaic_trading.Orchestration.Lineage.Traversal.Tests.{diamond}
use optaic_trading.Orchestration.Freshness.{
  ready, error, get_expected_date, is_stale, load_frequency, staleness_of,
}
use optaic_trading.Orchestration.Freshness.Tests.{monday}
use optaic_trading.Orchestration.Freshness.Composite.{
  World, calculate_staleness, FreshnessReport, LineageFreshnessReport, check_composite_freshness,
  lineage_report, check_upstream_freshness,
}
use optaic_trading.Orchestration.Freshness.Composite.Status.{IsCurrent, calculate_staleness-ready}
use optaic_trading.Orchestration.Freshness.Composite.Reports.{
  check_upstream-all_ready, check_composite-all_ready,
}

abbrev current_row : StatusRow
current_row = record (blank_status 1) {
  last_pipeline_status = some "success";
  last_data_date = some 739053;
}

abbrev failed_row : StatusRow
failed_row = record current_row { last_pipeline_status = some "error" }

-- All datasets are current but 3, whose last run failed.
abbrev world : World
world = record {
  rows = diamond;
  store = record {
    statuses = (1, current_row) ∷ (2, current_row) ∷ (3, failed_row) ∷ (4, current_row) ∷ [];
    tenants = [];
  };
  configs = [];
  today = monday;
}

program : Unit {0}
unfolding ordinal days_before_year days_before_month days_in_month is_leap weekday sub_days
    get_status get_expected_date is_stale load_frequency staleness_of calculate_staleness
    lineage_report check_upstream_freshness check_composite_freshness resolve_upstream_dependencies
    select_upstream
program = tt

abbrev blocked_report : LineageFreshnessReport
blocked_report = record {
  resource_id = 4;
  all_ready = false;
  blocking_resources = 3 ∷ [];
  status_map = (2, ready) ∷ (3, error) ∷ (1, ready) ∷ [];
}

blocked : check_upstream_freshness stored world 4 ≡ ok blocked_report
unfolding program
blocked = refl

abbrev good_report : FreshnessReport
good_report = record {
  resource_id = 2;
  status = ready;
  last_data_date = some 739053;
  expected_date = some 739053;
  all_ready = true;
  blocking_resources = [];
  status_map = (2, ready) ∷ (1, ready) ∷ [];
}

good : check_composite_freshness stored world 2 (some (1 ∷ [])) ≡ ok good_report
unfolding program
good = refl

calculate_staleness-ready_example : (calculate_staleness world 1 ≡ ok ready) ↔ IsCurrent world 1
calculate_staleness-ready_example = calculate_staleness-ready world 1

check_upstream-all_ready_example :
    (blocked_report.all_ready ≡ true)
    ↔ ((v : ℕ) → Reach (upstream_link diamond) 4 v → v ≢ 4 → calculate_staleness world v ≡ ok ready)
check_upstream-all_ready_example = check_upstream-all_ready stored world 4 blocked_report blocked

check_composite-all_ready_example : (good_report.all_ready ≡ true) ↔ (
    (calculate_staleness world 2 ≡ ok ready)
    × ((v : ℕ) → contains v (1 ∷ []) ≡ true → calculate_staleness world v ≡ ok ready))
check_composite-all_ready_example =
    check_composite-all_ready stored world 2 (1 ∷ []) good_report good
