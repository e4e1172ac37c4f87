-- ===== src/Orchestration/RunService.antt =====
-- libs/orchestration/run_service.py: how `RunExecutionService` polls and cancels a run, over the
-- interface of an orchestrator (adapter.py) and the status store. A run's metadata are the entries
-- that the service reads and writes, and a missing entry is as one that is None. The name of an
-- activity is the type of the run, which the source writes in lower case, and an event.
pub mod Backend
pub mod Completed
pub mod Polls
pub mod Tests
use optaic_trading.Prelude.{
  ℕ, ◌≡◌, Bool, true, false, Option, none, some, List, [], ◌∷◌, ◌++◌, String, ◌==◌, string_eq,
  if◌then◌else◌, Result, ok, err, ◌>>=◌,
}
use optaic_trading.Prelude.Dict.{Dict, get, put, adjust}
use optaic_trading.Orchestration.StatusStore.{Store, StoreError, mark_run_success, mark_run_error}
use optaic_trading.Orchestration.Local.{LocalRunState, RunError, is_terminal, cancel_run}

-- The entries of `metrics` that the service reads
pub record Metrics : Type 0 where
  pub last_data_date : Option ℕ
  pub rows_processed : Option ℕ

pub record RunStatus : Type 0 where
  pub status : String
  pub error_message : Option String
  pub metrics : Option Metrics
  pub finished_at : Option ℕ

-- `OrchestratorAdapter`: the answers of a backend, and what a cancellation leaves of its state
pub record Orchestrator (State : Type 0) : Type 0 where
  pub get_status : ℕ → State → Result String RunStatus
  pub cancel : ℕ → State → Bool × State

pub record RunMetadata : Type 0 where
  pub status : Option String
  pub orchestrator_run_id : Option ℕ
  pub finished_at : Option ℕ
  pub error_message : Option String
  pub metrics : Option Metrics

pub record RunResource : Type 0 where
  pub tenant_id : ℕ
  pub resource_type : String
  pub parent_id : Option ℕ
  pub metadata : RunMetadata

pub record Refresh : Type 0 where
  pub freshness_status : String
  pub last_refresh_at : Option ℕ

pub record RunActivity : Type 0 where
  pub resource_id : ℕ
  pub resource_type : String
  pub event : String
  pub actor_id : Option ℕ

-- The tables, the status store and the state of the backend
pub record ServiceWorld (State : Type 0) : Type 0 where
  pub runs : Dict RunResource
  pub datasets : Dict Refresh
  pub statuses : Store
  pub activities : List RunActivity
  pub backend : State

pub data ServiceError : Type 0 where
  run_not_found no_orchestrator_run_id : ServiceError
  of_orchestrator : String → ServiceError
  of_store : StoreError → ServiceError

abbrev pub status_text : Option String → String
status_text none = "unknown"
status_text (some status) = status

-- current_metadata.get("status", "unknown")
abbrev pub run_status : RunResource → String
run_status run = status_text run.metadata.status

-- `status.metrics or {}`
abbrev pub metrics_or_empty : Option Metrics → Metrics
metrics_or_empty none = record { last_data_date = none; rows_processed = none }
metrics_or_empty (some metrics) = metrics

-- `status.error_message or "Unknown error"`
abbrev pub message_or_unknown : Option String → String
message_or_unknown none = "Unknown error"
message_or_unknown (some message) = if message == "" then "Unknown error" else message

abbrev pub synced : RunStatus → RunResource → RunResource
synced status run = record run {
  metadata = record run.metadata {
    status = some status.status;
    finished_at = status.finished_at;
    error_message = status.error_message;
    metrics = status.metrics;
  };
}

abbrev pub refreshed : ℕ → Refresh → Refresh
refreshed now dataset = record { freshness_status = "fresh"; last_refresh_at = some now }

abbrev pub of_result {ℓ} : {A : Type ℓ} → Result StoreError A → Result ServiceError A
of_result (ok value) = ok value
of_result (err error) = err (of_store error)

-- run.parent_id, for a pipeline run
abbrev pub pipeline_parent : RunResource → Option ℕ
pipeline_parent run = if run.resource_type == "PipelineRun" then run.parent_id else none

module _ {State : Type 0} (orchestrator : Orchestrator State) where
  abbrev pub emit : RunActivity → ServiceWorld State → ServiceWorld State
  emit activity world = record world { activities = world.activities ++ activity ∷ [] }

  abbrev pub with_statuses : ServiceWorld State → Store → ServiceWorld State
  with_statuses world statuses = record world { statuses = statuses }

  -- Behind the lookup of the dataset that a pipeline run refreshes
  unfoldable pub refresh_dataset :
      ℕ
      → ℕ
      → Metrics
      → ServiceWorld State
      → Option Refresh
      → Result ServiceError (ServiceWorld State)
  refresh_dataset now id metrics world none = ok world
  refresh_dataset now id metrics world (some dataset) =
      of_result
        (mark_run_success metrics.last_data_date metrics.rows_processed false now id world.statuses)
      >>= λ statuses. ok (record world {
        datasets = adjust id (refreshed now) world.datasets;
        statuses = statuses;
      })

  unfoldable pub refresh_parent :
      ℕ → RunStatus → ServiceWorld State → Option ℕ → Result ServiceError (ServiceWorld State)
  refresh_parent now status world none = ok world
  refresh_parent now status world (some id) =
      refresh_dataset now id (metrics_or_empty status.metrics) world (get id world.datasets)

  -- `_on_run_completed`
  unfoldable pub on_run_completed :
      ℕ
      → ℕ
      → RunResource
      → RunStatus
      → ServiceWorld State
      → Result ServiceError (ServiceWorld State)
  on_run_completed now run_id run status world =
      refresh_parent now status world (pipeline_parent run) >>= λ after. ok (
        emit
          (record {
            resource_id = run_id;
            resource_type = run.resource_type;
            event = "run_completed";
            actor_id = none;
          })
          after)

  unfoldable pub fail_parent :
      ℕ → RunStatus → ServiceWorld State → Option ℕ → Result ServiceError (ServiceWorld State)
  fail_parent now status world none = ok world
  fail_parent now status world (some id) =
      of_result (mark_run_error (message_or_unknown status.error_message) now id world.statuses)
      >>= λ statuses. ok (with_statuses world statuses)

  -- `_on_run_failed`
  unfoldable pub on_run_failed :
      ℕ
      → ℕ
      → RunResource
      → RunStatus
      → ServiceWorld State
      → Result ServiceError (ServiceWorld State)
  on_run_failed now run_id run status world =
      fail_parent now status world (pipeline_parent run) >>= λ after. ok (
        emit
          (record {
            resource_id = run_id;
            resource_type = run.resource_type;
            event = "run_failed";
            actor_id = none;
          })
          after)

  unfoldable pub on_run_over :
      ℕ
      → ℕ
      → RunResource
      → RunStatus
      → ServiceWorld State
      → Result ServiceError (ServiceWorld State)
  on_run_over now run_id run status world =
      if status.status == "completed"
      then on_run_completed now run_id run status world
      else if status.status == "failed"
      then on_run_failed now run_id run status world
      else ok world

  unfoldable pub sync :
      ℕ
      → ℕ
      → RunResource
      → ServiceWorld State
      → Result String RunStatus
      → Result ServiceError (ServiceWorld State)
  sync now run_id run world (err text) = err (of_orchestrator text)
  sync now run_id run world (ok status) =
      if status.status == run_status run
      then ok world
      else on_run_over now run_id run status
          (record world { runs = adjust run_id (synced status) world.runs })

  unfoldable pub poll_known :
      ℕ → ℕ → RunResource → ServiceWorld State → Option ℕ → Result ServiceError (ServiceWorld State)
  poll_known now run_id run world none = err no_orchestrator_run_id
  poll_known now run_id run world (some id) =
      sync now run_id run world (orchestrator.get_status id world.backend)

  unfoldable pub poll_found :
      ℕ → ℕ → ServiceWorld State → Option RunResource → Result ServiceError (ServiceWorld State)
  poll_found now run_id world none = err run_not_found
  poll_found now run_id world (some run) =
      if is_terminal (run_status run)
      then ok world
      else poll_known now run_id run world run.metadata.orchestrator_run_id

  unfoldable pub poll_and_sync :
      ℕ → ℕ → ServiceWorld State → Result ServiceError (ServiceWorld State)
  poll_and_sync now run_id world = poll_found now run_id world (get run_id world.runs)

  abbrev pub cancelled_run : ℕ → RunResource → RunResource
  cancelled_run now run = record run {
    metadata = record run.metadata { status = some "cancelled"; finished_at = some now };
  }

  -- What the answer of the orchestrator to a cancellation does
  unfoldable pub cancel_answered :
      ℕ → ℕ → ℕ → RunResource → ServiceWorld State → Bool × State → ServiceWorld State
  cancel_answered now actor_id run_id run world (false, backend) = record world {
    backend = backend;
  }
  cancel_answered now actor_id run_id run world (true, backend) =
      emit
        (record {
          resource_id = run_id;
          resource_type = run.resource_type;
          event = "run_cancelled";
          actor_id = some actor_id;
        })
        (record world { runs = adjust run_id (cancelled_run now) world.runs; backend = backend })

  unfoldable pub cancel_known :
      ℕ
      → ℕ
      → ℕ
      → RunResource
      → ServiceWorld State
      → Option ℕ
      → Result ServiceError (ServiceWorld State)
  cancel_known now actor_id run_id run world none = err no_orchestrator_run_id
  cancel_known now actor_id run_id run world (some id) =
      ok (cancel_answered now actor_id run_id run world (orchestrator.cancel id world.backend))

  unfoldable pub cancel_found :
      ℕ → ℕ → ℕ → ServiceWorld State → Option RunResource → Result ServiceError (ServiceWorld State)
  cancel_found now actor_id run_id world none = err run_not_found
  cancel_found now actor_id run_id world (some run) =
      cancel_known now actor_id run_id run world run.metadata.orchestrator_run_id

  unfoldable pub cancel_service_run :
      ℕ → ℕ → ℕ → ServiceWorld State → Result ServiceError (ServiceWorld State)
  cancel_service_run now actor_id run_id world =
      cancel_found now actor_id run_id world (get run_id world.runs)
