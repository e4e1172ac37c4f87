-- ===== src/Orchestration/RunService/Completed.antt =====
-- What a poll does that finds a pipeline run completed.
use optaic_trading.Prelude.{ℕ, ◌≡◌, false, none, some, [], ◌∷◌, ◌++◌, string_eq, Option, nat_beq}
use optaic_trading.Prelude.Dict.{get}
use optaic_trading.Orchestration.StatusStore.{StatusRow, get_status}
use optaic_trading.Orchestration.RunService.{Metrics, RunStatus, RunResource, ServiceWorld}

-- The entries of the run's metrics, unknown where there are no metrics
abbrev pub reported {ℓ} : {A : Type ℓ} → (Metrics → Option A) → Option Metrics → Option A
reported entry none = none
reported entry (some metrics) = entry metrics

abbrev pub completed_row : ℕ → RunStatus → StatusRow → StatusRow
completed_row now status row = record row {
  last_pipeline_status = some "success";
  last_data_date = reported (λ m. m.last_data_date) status.metrics;
  rows_processed = reported (λ m. m.rows_processed) status.metrics;
  source_delay_detected = false;
  error_message = none;
  updated_at = some now;
}

-- The run is completed and has what the orchestrator reported, its dataset is fresh, the status
-- store has a success with the data date and the rows of the run's metrics, and one activity more
-- is recorded; the other runs, datasets and rows of the store stay.
pub record IsRefreshed {State : Type 0} (now run_id dataset_id : ℕ) (run : RunResource)
    (status : RunStatus) (row : StatusRow) (before after : ServiceWorld State) : Type 0 where
  pub run_after :
      get run_id after.runs
      ≡ some (record run {
        metadata = record run.metadata {
          status = some "completed";
          finished_at = status.finished_at;
          error_message = status.error_message;
          metrics = status.metrics;
        };
      })
  pub dataset_after :
      get dataset_id after.datasets
      ≡ some (record { freshness_status = "fresh"; last_refresh_at = some now })
  pub row_after : get_status dataset_id after.statuses ≡ some (completed_row now status row)
  pub activities_after :
      after.activities
      ≡ before.activities
        ++ record {
          resource_id = run_id;
          resource_type = run.resource_type;
          event = "run_completed";
          actor_id = none;
        }
          ∷ []
  pub other_runs : (id : ℕ) → nat_beq id run_id ≡ false → get id after.runs ≡ get id before.runs
  pub other_datasets :
      (id : ℕ) → nat_beq id dataset_id ≡ false → get id after.datasets ≡ get id before.datasets
  pub other_rows :
      (id : ℕ)
      → nat_beq id dataset_id ≡ false
      → get_status id after.statuses ≡ get_status id before.statuses
