-- ===== src/Orchestration/RunService/Backend.antt =====
-- `LocalOrchestrator` (libs/orchestration/local.py) as the backend of the run service.
use optaic_trading.Prelude.{ℕ, Bool, false, Option, none, some, String, ok}
use optaic_trading.Prelude.Dict.{Dict, get, put}
use optaic_trading.Orchestration.Local.{LocalRunState, RunError, cancel_run}
use optaic_trading.Orchestration.RunService.{RunStatus, Orchestrator}

abbrev pub error_text : (RunError → String) → Option RunError → Option String
error_text text none = none
error_text text (some error) = some (text error)

-- `get_status`: the metrics of a local run have no entry that the service reads.
unfoldable pub local_status : (RunError → String) → Option LocalRunState → RunStatus
local_status text none = record {
  status = "unknown";
  error_message = some "Run not found";
  metrics = none;
  finished_at = none;
}
local_status text (some state) = record {
  status = state.status;
  error_message = error_text text state.error_message;
  metrics = some (record { last_data_date = none; rows_processed = none });
  finished_at = state.finished_at;
}

abbrev pub keep_state : ℕ → Dict LocalRunState → Bool × LocalRunState → Bool × Dict LocalRunState
keep_state id runs (answer, state) = (answer, put id state runs)

unfoldable pub local_cancel :
    ℕ → ℕ → Dict LocalRunState → Option LocalRunState → Bool × Dict LocalRunState
local_cancel now id runs none = (false, runs)
local_cancel now id runs (some state) = keep_state id runs (cancel_run now state)

unfoldable pub local_orchestrator : (RunError → String) → ℕ → Orchestrator (Dict LocalRunState)
local_orchestrator text now = record {
  get_status = λ id runs. ok (local_status text (get id runs));
  cancel = λ id runs. local_cancel now id runs (get id runs);
}
