-- ===== src/Orchestration/Freshness/Composite.antt =====
-- `calculate_staleness`, `check_composite_freshness` and `detect_source_delay` of
-- libs/orchestration/freshness.py, over what the session holds, and `check_upstream_freshness` of
-- libs/orchestration/lineage.py, which asks the checker about each upstream resource.
pub mod Tests
pub mod Status
pub mod Reports
use optaic_trading.Prelude.{
  ℕ, ◌≡◌, Bool, true, false, Option, none, some, List, [], ◌∷◌, ◌++◌, if◌then◌else◌, Result, ok,
  err, ◌>>=◌,
}
use optaic_trading.Prelude.Dict.{Dict, get, put}
use optaic_trading.Database.{Arrangement}
use optaic_trading.Calendar.{CalendarDate, Exception, key_error, out_of_fuel}
use optaic_trading.Orchestration.StatusStore.{StatusRow, Store, get_status}
use optaic_trading.Orchestration.Lineage.Table.{LineageRow, select_upstream}
use optaic_trading.Orchestration.Lineage.Traversal.{resolve_upstream_dependencies}
use optaic_trading.Orchestration.Freshness.{
  DatasetStatus, not_initialized, ready, stale, stale_source_delayed, error, Configs,
  load_frequency, staleness_of, get_expected_date,
}

-- What the session and the clock give: the lineage rows, the status store, the datasets'
-- configurations and today's date.
pub record World : Type 0 where
  pub rows : List LineageRow
  pub store : Store
  pub configs : Configs
  pub today : CalendarDate

-- With no date and no frequency given: those of today and of the resource.
pub calculate_staleness : World → ℕ → Result Exception DatasetStatus
calculate_staleness w resource_id =
    staleness_of (get_status resource_id w.store) (load_frequency w.configs resource_id) w.today

pub detect_source_delay : World → ℕ → Bool
detect_source_delay w resource_id = elim (get_status resource_id w.store) [
  | none ↦ false
  | some row ↦ row.source_delay_detected
]

abbrev pub is_ready : DatasetStatus → Bool
is_ready ready = true
is_ready _ = false

pub record FreshnessReport : Type 0 where
  pub resource_id : ℕ
  pub status : DatasetStatus
  pub last_data_date : Option ℕ
  pub expected_date : Option ℕ
  pub all_ready : Bool
  pub blocking_resources : List ℕ
  pub status_map : Dict DatasetStatus

-- The loop over the upstream resources. The four statuses that block are all but `ready`.
pub check_each :
    World → List ℕ → Dict DatasetStatus → List ℕ → Result Exception (Dict DatasetStatus × List ℕ)
unfolding calculate_staleness
check_each w [] status_map blocking = ok (status_map, blocking)
check_each w (id ∷ ids) status_map blocking = calculate_staleness w id >>= λ status.
    check_each w ids (put id status status_map)
      (if is_ready status then blocking else blocking ++ id ∷ [])

-- The first blocking resource with an error or with no data decides.
pub aggregate : Dict DatasetStatus → List ℕ → Result Exception DatasetStatus
aggregate status_map [] = ok stale
aggregate status_map (id ∷ ids) = elim (get id status_map) [
  | none ↦ err key_error
  | some error ↦ ok error
  | some not_initialized ↦ ok not_initialized
  | some _ ↦ aggregate status_map ids
]

-- {…, **entries}
pub merge : Dict DatasetStatus → Dict DatasetStatus → Dict DatasetStatus
merge d [] = d
merge d ((id, status) ∷ entries) = merge (put id status d) entries

-- All upstream resources are ready: the resource's own status.
pub own_freshness : World → ℕ → Dict DatasetStatus → Result Exception FreshnessReport
unfolding calculate_staleness merge
own_freshness w resource_id status_map = calculate_staleness w resource_id >>= λ own.
    get_expected_date (load_frequency w.configs resource_id) w.today >>= λ expected. ok (record {
      resource_id = resource_id;
      status = own;
      last_data_date = elim (get_status resource_id w.store) [
        | none ↦ none
        | some row ↦ row.last_data_date
      ];
      expected_date = some expected;
      all_ready = is_ready own;
      blocking_resources = [];
      status_map = merge ((resource_id, own) ∷ []) status_map;
    })

pub report_from : World → ℕ → Dict DatasetStatus × List ℕ → Result Exception FreshnessReport
unfolding aggregate own_freshness
report_from w resource_id (status_map, []) = own_freshness w resource_id status_map
report_from w resource_id (status_map, id ∷ ids) = aggregate status_map (id ∷ ids) >>= λ status.
    ok (record {
      resource_id = resource_id;
      status = status;
      last_data_date = none;
      expected_date = none;
      all_ready = false;
      blocking_resources = id ∷ ids;
      status_map = status_map;
    })

-- With the upstream identifiers given, or looked up in the lineage table.
pub check_composite_freshness :
    Arrangement LineageRow → World → ℕ → Option (List ℕ) → Result Exception FreshnessReport
unfolding check_each report_from
check_composite_freshness db w resource_id upstream_ids =
    check_each w
      (elim upstream_ids [ some ids ↦ ids | none ↦ select_upstream db w.rows resource_id ]) [] []
    >>= report_from w resource_id

-- `LineageFreshnessReport`
pub record LineageFreshnessReport : Type 0 where
  pub resource_id : ℕ
  pub all_ready : Bool
  pub blocking_resources : List ℕ
  pub status_map : Dict DatasetStatus

abbrev pub is_empty : List ℕ → Bool
is_empty [] = true
is_empty (x ∷ xs) = false

-- What follows the search for the upstream resources.
pub lineage_report : World → ℕ → Option (List ℕ) → Result Exception LineageFreshnessReport
unfolding check_each
lineage_report w resource_id none = err out_of_fuel
lineage_report w resource_id (some upstreams) =
    check_each w upstreams [] [] >>= λ (status_map, blocking). ok (record {
      resource_id = resource_id;
      all_ready = is_empty blocking;
      blocking_resources = blocking;
      status_map = status_map;
    })

pub check_upstream_freshness :
    Arrangement LineageRow → World → ℕ → Result Exception LineageFreshnessReport
check_upstream_freshness db w resource_id =
    lineage_report w resource_id (resolve_upstream_dependencies db w.rows resource_id true)
