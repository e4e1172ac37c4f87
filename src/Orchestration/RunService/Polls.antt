-- ===== src/Orchestration/RunService/Polls.antt =====
-- What a poll of a run does, and that a second poll does nothing.
use optaic_trading.Prelude.{
  ℕ, ◌≡◌, true, Option, none, some, String, ◌==◌, ==_self, string_eq, Result, ok, err, >>=-eq-ok,
  refl, ap, subst, sym, ◌∙◌, Bool-cases, inl, inr,
}
use optaic_trading.Prelude.Dict.{get, adjust, get-adjust_self}
use optaic_trading.Orchestration.StatusStore.{mark_run_success, mark_run_error}
use optaic_trading.Orchestration.Local.{is_terminal}
use optaic_trading.Orchestration.RunService.{
  Metrics, RunStatus, Orchestrator, RunResource, Refresh, ServiceWorld, run_status,
  metrics_or_empty, message_or_unknown, synced, of_result, pipeline_parent, refresh_dataset,
  refresh_parent, on_run_completed, fail_parent, on_run_failed, on_run_over, sync, poll_known,
  poll_found, poll_and_sync,
}

module _ {State : Type 0} (orchestrator : Orchestrator State) where
  -- The runs and the backend stay.
  abbrev Keeps : ServiceWorld State → ServiceWorld State → Type 0
  Keeps before after = (after.runs ≡ before.runs) × (after.backend ≡ before.backend)

  refresh_dataset-Keeps :
      (now id : ℕ) (metrics : Metrics) (world : ServiceWorld State) (o : Option Refresh)
      {after : ServiceWorld State}
      → refresh_dataset orchestrator now id metrics world o ≡ ok after
      → Keeps world after
  unfolding refresh_dataset
  refresh_dataset-Keeps now id metrics world none returned = (cc, cc)
  refresh_dataset-Keeps now id metrics world (some dataset) returned =
      let (statuses, _, last) = >>=-eq-ok (of_result (mark_run_success _ _ _ _ _ _)) _ returned in
      (cc, cc)

  refresh_parent-Keeps :
      (now : ℕ) (status : RunStatus) (world : ServiceWorld State) (o : Option ℕ)
      {after : ServiceWorld State}
      → refresh_parent orchestrator now status world o ≡ ok after
      → Keeps world after
  unfolding refresh_parent
  refresh_parent-Keeps now status world none returned = (cc, cc)
  refresh_parent-Keeps now status world (some id) returned =
      refresh_dataset-Keeps now id (metrics_or_empty status.metrics) world (get id world.datasets)
        returned

  on_run_completed-Keeps :
      (now run_id : ℕ) (run : RunResource) (status : RunStatus) (world : ServiceWorld State)
      {after : ServiceWorld State}
      → on_run_completed orchestrator now run_id run status world ≡ ok after
      → Keeps world after
  unfolding on_run_completed
  on_run_completed-Keeps now run_id run status world returned =
      let (between, e, last) =
        >>=-eq-ok (refresh_parent orchestrator now status world (pipeline_parent run)) _ returned in
      let (runs, backend) = refresh_parent-Keeps now status world (pipeline_parent run) e in
      (cc, cc)

  fail_parent-Keeps :
      (now : ℕ) (status : RunStatus) (world : ServiceWorld State) (o : Option ℕ)
      {after : ServiceWorld State}
      → fail_parent orchestrator now status world o ≡ ok after
      → Keeps world after
  unfolding fail_parent
  fail_parent-Keeps now status world none returned = (cc, cc)
  fail_parent-Keeps now status world (some id) returned =
      let (statuses, _, last) =
        >>=-eq-ok
          (of_result
            (mark_run_error (message_or_unknown status.error_message) now id world.statuses))
          _ returned in
      (cc, cc)

  on_run_failed-Keeps :
      (now run_id : ℕ) (run : RunResource) (status : RunStatus) (world : ServiceWorld State)
      {after : ServiceWorld State}
      → on_run_failed orchestrator now run_id run status world ≡ ok after
      → Keeps world after
  unfolding on_run_failed
  on_run_failed-Keeps now run_id run status world returned =
      let (between, e, last) =
        >>=-eq-ok (fail_parent orchestrator now status world (pipeline_parent run)) _ returned in
      let (runs, backend) = fail_parent-Keeps now status world (pipeline_parent run) e in (cc, cc)

  on_run_over-Keeps :
      (now run_id : ℕ) (run : RunResource) (status : RunStatus) (world : ServiceWorld State)
      {after : ServiceWorld State}
      → on_run_over orchestrator now run_id run status world ≡ ok after
      → Keeps world after
  unfolding on_run_over
  on_run_over-Keeps now run_id run status world {after} returned =
      elim (Bool-cases (status.status == "completed")) [
        | inl completed ↦
            on_run_completed-Keeps now run_id run status world (rw (completed) at returned)
        | inr other ↦ elim (Bool-cases (status.status == "failed")) [
          | inl failed ↦
              on_run_failed-Keeps now run_id run status world (rw (other, failed) at returned)
          | inr neither ↦
              let same : world ≡ after = cc (rw (other, neither) at returned) in
              (
                ap (λ (w : ServiceWorld State). w.runs) (sym same),
                ap (λ (w : ServiceWorld State). w.backend) (sym same),
              )
        ]
      ]

  -- A poll that finds a run as its metadata say leaves everything as it is.
  poll_same :
      (now run_id id : ℕ) (run : RunResource) (status : RunStatus) (world : ServiceWorld State)
      → get run_id world.runs ≡ some run
      → run.metadata.orchestrator_run_id ≡ some id
      → orchestrator.get_status id world.backend ≡ ok status
      → (status.status == run_status run) ≡ true
      → poll_and_sync orchestrator now run_id world ≡ ok world
  unfolding poll_and_sync poll_found poll_known sync
  poll_same now run_id id run status world found known answers same =
      elim (Bool-cases (is_terminal (run_status run))) [
        | inl terminal ↦ rw (found, poll_found, terminal) refl
        | inr going ↦ rw (found, poll_found, going, known, poll_known, answers, sync, same) refl
      ]

  sync_again :
      (now later run_id id : ℕ) (run : RunResource) (world after : ServiceWorld State)
      (answer : Result String RunStatus)
      → get run_id world.runs ≡ some run
      → run.metadata.orchestrator_run_id ≡ some id
      → orchestrator.get_status id world.backend ≡ answer
      → sync orchestrator now run_id run world answer ≡ ok after
      → poll_and_sync orchestrator later run_id after ≡ ok after
  unfolding sync
  sync_again now later run_id id run world after (err text) found known answers returned = cc
  sync_again now later run_id id run world after (ok status) found known answers returned =
      elim (Bool-cases (status.status == run_status run)) [
        | inl same ↦
            let unchanged : world ≡ after = cc (rw (same) at returned) in
            subst (λ (w : ServiceWorld State). poll_and_sync orchestrator later run_id w ≡ ok w)
              unchanged (poll_same later run_id id run status world found known answers same)
        | inr differs ↦
            let session = record world { runs = adjust run_id (synced status) world.runs } in
            let (runs, backend) =
              on_run_over-Keeps now run_id run status session (rw (differs) at returned) in
            poll_same later run_id id (synced status run) status after
              (ap (get run_id) runs ∙ get-adjust_self run_id (synced status) run world.runs found)
              known (ap (orchestrator.get_status id) backend ∙ answers) (==_self status.status)
      ]

  poll_known_again :
      (now later run_id : ℕ) (run : RunResource) (world after : ServiceWorld State) (o : Option ℕ)
      → get run_id world.runs ≡ some run
      → run.metadata.orchestrator_run_id ≡ o
      → poll_known orchestrator now run_id run world o ≡ ok after
      → poll_and_sync orchestrator later run_id after ≡ ok after
  unfolding poll_known
  poll_known_again now later run_id run world after none found known returned = cc
  poll_known_again now later run_id run world after (some id) found known returned =
      sync_again now later run_id id run world after (orchestrator.get_status id world.backend)
        found known refl returned

  poll_found_again :
      (now later run_id : ℕ) (world after : ServiceWorld State) (o : Option RunResource)
      → get run_id world.runs ≡ o
      → poll_found orchestrator now run_id world o ≡ ok after
      → poll_and_sync orchestrator later run_id after ≡ ok after
  unfolding poll_found poll_and_sync
  poll_found_again now later run_id world after none found returned = cc
  poll_found_again now later run_id world after (some run) found returned =
      elim (Bool-cases (is_terminal (run_status run))) [
        | inl terminal ↦
            let unchanged : world ≡ after = cc (rw (terminal) at returned) in
            subst (λ (w : ServiceWorld State). poll_and_sync orchestrator later run_id w ≡ ok w)
              unchanged (rw (found, poll_found, terminal) refl)
        | inr going ↦
            poll_known_again now later run_id run world after run.metadata.orchestrator_run_id found
              refl (rw (going) at returned)
      ]

  -- A poll that returned has done all there is to do: while the orchestrator's state stays, another
  -- poll of the run changes nothing, so that the end of a run is handled once.
  pub poll_and_sync_again :
      (now later run_id : ℕ) (world after : ServiceWorld State)
      → poll_and_sync orchestrator now run_id world ≡ ok after
      → poll_and_sync orchestrator later run_id after ≡ ok after
  unfolding poll_and_sync
  poll_and_sync_again now later run_id world after returned =
      poll_found_again now later run_id world after (get run_id world.runs) refl returned
