-- ===== src/Orchestration/Local/Tests.antt =====
-- Runs of a graph with one node, and the theorems about them there.
use optaic_trading.Prelude.{
  ℕ, ◌≡◌, ◌⊎◌, inl, true, false, List, [], ◌∷◌, string_eq, String, Result, ok, refl,
}
use optaic_trading.Orchestration.Local.{
  returned, submitted, is_terminal, cancel_run, scheduled, returned_from, Run, finish, next_batch,
  begin, collect, after_batch, resume, starts, resumes, cancels, Reached, at_start, after,
}
use optaic_trading.Orchestration.Local.Ends.{drive, run_ends}
use optaic_trading.Orchestration.Local.Runs.{AllDone, completed_honest, over_final}

abbrev built : Result String (List (List ℕ))
built = ok ((7 ∷ []) ∷ [])

-- Node 7 is run and returns: the run completes.
abbrev ended : Run
ended = resume 3 [] ((7, returned "success") ∷ []) (begin 2 built submitted).state

ended-Reached : Reached built ended
unfolding begin next_batch finish submitted
ended-Reached =
    after (after at_start (starts 2 submitted)) (resumes 3 _ [] (begin 2 built submitted).state)

ended_status : ended.state.status ≡ "completed"
unfolding begin next_batch finish submitted resume collect after_batch
ended_status = refl

-- A run that is cancelled before its task starts: it is left with the status "running".
abbrev abandoned_run : Run
abandoned_run = begin 2 built (cancel_run 1 submitted).1

abandoned-Reached : Reached built abandoned_run
abandoned-Reached =
    after (after at_start (cancels 1 (record { state = submitted; place = scheduled })))
      (starts 2 (cancel_run 1 submitted).1)

abandoned_status : abandoned_run.state.status ≡ "running"
unfolding begin next_batch finish submitted cancel_run
abandoned_status = refl

abandoned_place : abandoned_run.place ≡ returned_from
unfolding begin next_batch finish submitted cancel_run
abandoned_place = refl

completed_honest_example :
    AllDone built ended.state × (ended.state.cancelled ≡ false) × (ended.state.node_errors ≡ [])
completed_honest_example = completed_honest built ended ended-Reached ended_status

over_final_example : record ended { state = (cancel_run 9 ended.state).1 } ≡ ended
over_final_example = over_final built ended _ ended-Reached (inl ended_status) (cancels 9 ended)

-- From the start, where the node returns
run_ends_example :
    (let end =
        drive built 5
          (λ n. returned "success")
          2
          (record { state = submitted; place = scheduled }) in
      (end.place ≡ returned_from)
      × ((is_terminal end.state.status ≡ true) ⊎ (end.state.cancelled ≡ true)))
run_ends_example =
    run_ends built (record { state = submitted; place = scheduled }) 5 (λ n. returned "success")
      at_start
