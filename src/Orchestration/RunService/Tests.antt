-- ===== src/Orchestration/RunService/Tests.antt =====
-- A pipeline run on the local orchestrator, and the theorems about it there.
use optaic_trading.Prelude.{◌≡◌, none, some, [], ◌∷◌, String, string_eq, ok, refl}
use optaic_trading.Prelude.Dict.{Dict}
use optaic_trading.Orchestration.Local.{LocalRunState, RunError, submitted, cancel_run}
use optaic_trading.Orchestration.RunService.{
  RunStatus, Orchestrator, RunResource, ServiceWorld, synced, on_run_over, sync, poll_known,
  poll_found, poll_and_sync, cancel_answered, cancel_known, cancel_found, cancel_service_run,
}
use optaic_trading.Orchestration.RunService.Backend.{local_status, local_cancel, local_orchestrator}
use optaic_trading.Orchestration.RunService.Polls.{poll_and_sync_again}

abbrev text : RunError → String
text error = "failed"

abbrev backend : Orchestrator (Dict LocalRunState)
backend = local_orchestrator text 50

abbrev completed_state : LocalRunState
completed_state = record submitted { status = "completed"; finished_at = some 40 }

abbrev run : RunResource
run = record {
  tenant_id = 9;
  resource_type = "PipelineRun";
  parent_id = some 5;
  metadata = record {
    status = some "running";
    orchestrator_run_id = some 77;
    finished_at = none;
    error_message = none;
    metrics = none;
  };
}

-- Run 6 refreshes dataset 5, and is run 77 of the orchestrator, which has completed it.
abbrev world : ServiceWorld (Dict LocalRunState)
world = record {
  runs = (6, run) ∷ [];
  datasets = (5, record { freshness_status = "stale"; last_refresh_at = none }) ∷ [];
  statuses = record { statuses = []; tenants = (5, 9) ∷ [] };
  activities = [];
  backend = (77, completed_state) ∷ [];
}

abbrev polled : RunStatus
polled = local_status text (some completed_state)

-- A world in which the orchestrator does not know the run: its status is unknown from then on.
abbrev lost : ServiceWorld (Dict LocalRunState)
lost = record world { backend = [] }

abbrev lost_after : ServiceWorld (Dict LocalRunState)
lost_after = record lost { runs = (6, synced (local_status text none) run) ∷ [] }

lost_polled : poll_and_sync backend 60 6 lost ≡ ok lost_after
unfolding local_orchestrator local_status poll_and_sync poll_found poll_known sync on_run_over
lost_polled = refl

poll_and_sync_again_example : poll_and_sync backend 61 6 lost_after ≡ ok lost_after
poll_and_sync_again_example = poll_and_sync_again backend 60 61 6 lost lost_after lost_polled

-- A run that has ended is not cancelled.
ended_not_cancelled : cancel_service_run backend 60 1 6 world ≡ ok world
unfolding local_orchestrator local_cancel cancel_run submitted cancel_service_run cancel_found
    cancel_known cancel_answered
ended_not_cancelled = refl
