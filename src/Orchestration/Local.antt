-- ===== src/Orchestration/Local.antt =====
-- libs/orchestration/local.py: a run of `LocalOrchestrator` as the state machine that
-- `_execute_run`, the end of a batch and `cancel_run` drive. The event loop runs other tasks
-- where `_execute_run` awaits: before it starts, and while a batch is gathered. A cancellation
-- comes at these points alone. What the nodes return is a parameter of each step; the log is left
-- out.
pub mod Ends
pub mod Runs
pub mod Tests
use optaic_trading.Prelude.{
  ℕ, suc, Bool, true, false, Option, none, some, List, [], ◌∷◌, String, ◌==◌, ◌||◌, string_eq,
  if◌then◌else◌, length, Result, ok, err,
}
use optaic_trading.Prelude.Dict.{Dict, keys, put}

-- What a node's executor returns: a result, or the text of its exception.
pub data NodeOutcome : Type 0 where
  returned : String → NodeOutcome
  raised : String → NodeOutcome

-- The two forms of `error_message`: a node failed, or the graph could not be built or ordered.
pub data RunError : Type 0 where
  node_failed : ℕ → String → RunError
  raised_by_graph : String → RunError

-- `LocalRunState`, less the definition, the tags and the log
pub record LocalRunState : Type 0 where
  pub status : String
  pub error_message : Option RunError
  pub nodes_executed : Option ℕ
  pub started_at : Option ℕ
  pub finished_at : Option ℕ
  pub node_results : Dict String
  pub node_errors : Dict String
  pub cancelled : Bool

-- The state that `submit_run` stores
unfoldable pub submitted : LocalRunState
submitted = record {
  status = "queued";
  error_message = none;
  nodes_executed = none;
  started_at = none;
  finished_at = none;
  node_results = [];
  node_errors = [];
  cancelled = false;
}

-- status in ("completed", "failed", "cancelled")
abbrev pub is_terminal : String → Bool
is_terminal status = status == "completed" || status == "failed" || status == "cancelled"

-- The answer, and the state after it
unfoldable pub cancel_run : ℕ → LocalRunState → Bool × LocalRunState
cancel_run now state =
    if is_terminal state.status
    then (false, state)
    else (true, record state { cancelled = true; status = "cancelled"; finished_at = some now })

-- Where `_execute_run` stands: not yet started; gathering a batch, with the batches behind it;
-- returned.
pub data Place : Type 0 where
  scheduled : Place
  gathering : List ℕ → List (List ℕ) → Place
  returned_from : Place

pub record Run : Type 0 where
  pub state : LocalRunState
  pub place : Place

-- The end of `_execute_run`, behind its loop
unfoldable pub finish : ℕ → LocalRunState → Run
finish now state =
    if state.cancelled then record { state = state; place = returned_from } else record {
      state = record state {
        status = "completed";
        finished_at = some now;
        nodes_executed = some (length state.node_results);
      };
      place = returned_from;
    }

-- The head of the loop over the batches
unfoldable pub next_batch : ℕ → List (List ℕ) → LocalRunState → Run
unfolding finish
next_batch now [] state = finish now state
next_batch now (batch ∷ batches) state =
    if state.cancelled
    then finish now state
    else record { state = state; place = gathering batch batches }

-- From the start to the first await. The batches are those of the graph; or the graph cannot be
-- built from the definition or has a cycle, which raises.
unfoldable pub begin : ℕ → Result String (List (List ℕ)) → LocalRunState → Run
unfolding next_batch
begin now (err text) state = record {
  state = record state {
    status = "failed";
    error_message = some (raised_by_graph text);
    started_at = some now;
    finished_at = some now;
  };
  place = returned_from;
}
begin now (ok batches) state =
    next_batch now batches (record state { status = "running"; started_at = some now })

-- for node_id, result in zip(batch, results): false where a failure was found
unfoldable pub collect : ℕ → List (ℕ × NodeOutcome) → LocalRunState → Bool × LocalRunState
collect now [] state = (true, state)
collect now ((node_id, returned result) ∷ results) state =
    collect now results (record state { node_results = put node_id result state.node_results })
collect now ((node_id, raised text) ∷ results) state = (
  false,
  record state {
    status = "failed";
    error_message = some (node_failed node_id text);
    node_errors = put node_id text state.node_errors;
    finished_at = some now;
  },
)

-- What follows the results of a batch
unfoldable pub after_batch : ℕ → List (List ℕ) → Bool × LocalRunState → Run
unfolding next_batch
after_batch now batches (true, state) = next_batch now batches state
after_batch now batches (false, state) = record { state = state; place = returned_from }

-- From the gathered results of a batch to the next await
unfoldable pub resume : ℕ → List (List ℕ) → List (ℕ × NodeOutcome) → LocalRunState → Run
unfolding collect after_batch
resume now batches results state = after_batch now batches (collect now results state)

-- What can happen to a run: its task starts, its batch ends with a result for each node, or
-- `cancel_run` is called.
pub data Step (built : Result String (List (List ℕ))) : Run → Run → Type 0 where
  starts :
      (now : ℕ) (state : LocalRunState)
      → Step built (record { state = state; place = scheduled }) (begin now built state)
  resumes :
      (now : ℕ) (results : List (ℕ × NodeOutcome)) (batches : List (List ℕ)) (state : LocalRunState)
      → Step built
          (record { state = state; place = gathering (keys results) batches })
          (resume now batches results state)
  cancels :
      (now : ℕ) (run : Run) → Step built run (record run { state = (cancel_run now run.state).1 })

-- What a run can become after `submit_run`.
pub data Reached (built : Result String (List (List ℕ))) : Run → Type 0 where
  at_start : Reached built (record { state = submitted; place = scheduled })
  after : {before next : Run} → Reached built before → Step built before next → Reached built next
