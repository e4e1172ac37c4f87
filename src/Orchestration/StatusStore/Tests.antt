-- ===== src/Orchestration/StatusStore/Tests.antt =====
-- The theorems on the status store at a store of one known dataset.
use optaic_trading.Prelude.{◌≡◌, refl, false, some, none, ok, ◌>>=◌, [], ◌∷◌}
use optaic_trading.Orchestration.StatusStore.{
  Store, get_status, blank_status, mark_run_start, mark_run_success, mark_run_error,
}
use optaic_trading.Orchestration.StatusStore.Effects.{
  current, KeepsOthers, start_success, start_error,
}

-- Dataset 5 has no row yet; its resource belongs to tenant 1.
abbrev store : Store
store = record { statuses = []; tenants = (5, 1) ∷ [] }

known : current 5 store ≡ some (blank_status 1)
unfolding current
known = refl

start_success_example :
    (after : Store) × ((mark_run_start 100 101 5 store
        >>= mark_run_success (some 739053) (some 10) false 200 5)
      ≡ ok after)
    × (get_status 5 after
        ≡ some (record (blank_status 1) {
          last_pipeline_run = some 100;
          last_pipeline_status = some "success";
          last_data_date = some 739053;
          rows_processed = some 10;
          source_delay_detected = false;
          error_message = none;
          updated_at = some 200;
        }))
    × KeepsOthers 5 store after
start_success_example =
    start_success 5 100 101 200 (some 739053) (some 10) false store (blank_status 1) known

start_error_example :
    (after : Store) × ((mark_run_start 100 101 5 store >>= mark_run_error "no source" 200 5)
      ≡ ok after)
    × (get_status 5 after
        ≡ some (record (blank_status 1) {
          last_pipeline_run = some 100;
          last_pipeline_status = some "error";
          error_message = some "no source";
          updated_at = some 200;
        }))
    × KeepsOthers 5 store after
start_error_example = start_error 5 100 101 200 "no source" store (blank_status 1) known
