-- ===== src/Orchestration/Local/Runs.antt =====
-- What holds of every run of the local orchestrator, however its steps and cancellations interleave.
use optaic_trading.Prelude.{
  ℕ, ◌≡◌, ◌⊎◌, inl, inr, Bool, true, false, ◌||◌, some, List, [], ◌∷◌, String, ◌==◌, ==_self,
  string_eq, Result, ok, err, contains, contains-append, arith, refl, sym, ap, ◌∙◌, Bool-cases,
  subst, concat,
}
use optaic_trading.Prelude.Dict.{keys, put, contains-keys-put}
use optaic_trading.Orchestration.Local.{
  NodeOutcome, returned, raised, LocalRunState, submitted, is_terminal, cancel_run, Place,
  scheduled, gathering, returned_from, Run, finish, next_batch, begin, collect, after_batch, resume,
  Step, starts, resumes, cancels, Reached, at_start, after,
}

-- Every node has a result.
abbrev pub AllDone : Result String (List (List ℕ)) → LocalRunState → Type 0
AllDone built state =
    (batches : List (List ℕ)) × (built ≡ ok batches)
    × ((n : ℕ) → contains n (concat batches) ≡ true → contains n (keys state.node_results) ≡ true)

-- The nodes without a result stand in the batches that are left.
abbrev pub Left : Result String (List (List ℕ)) → List (List ℕ) → LocalRunState → Type 0
Left built rest state =
    (batches : List (List ℕ)) × (built ≡ ok batches)
    × ((n : ℕ)
        → contains n (concat batches) ≡ true
        → (contains n (keys state.node_results) || contains n (concat rest)) ≡ true)

-- The states that a run can have at each place.
pub data Fits (built : Result String (List (List ℕ))) : Place → LocalRunState → Type 0 where
  waiting :
      {s : LocalRunState}
      → s.status ≡ "queued"
      → s.cancelled ≡ false
      → s.node_errors ≡ []
      → Fits built scheduled s
  cancelled_waiting :
      {s : LocalRunState}
      → s.status ≡ "cancelled"
      → s.cancelled ≡ true
      → s.node_errors ≡ []
      → Fits built scheduled s
  working :
      {s : LocalRunState} {batch : List ℕ} {rest : List (List ℕ)}
      → s.status ≡ "running"
      → s.cancelled ≡ false
      → s.node_errors ≡ []
      → Left built (batch ∷ rest) s
      → Fits built (gathering batch rest) s
  cancelled_working :
      {s : LocalRunState} {batch : List ℕ} {rest : List (List ℕ)}
      → s.status ≡ "cancelled"
      → s.cancelled ≡ true
      → s.node_errors ≡ []
      → Left built (batch ∷ rest) s
      → Fits built (gathering batch rest) s
  done :
      {s : LocalRunState}
      → s.status ≡ "completed"
      → s.cancelled ≡ false
      → s.node_errors ≡ []
      → AllDone built s
      → Fits built returned_from s
  broken : {s : LocalRunState} → s.status ≡ "failed" → Fits built returned_from s
  stopped :
      {s : LocalRunState} → s.status ≡ "cancelled" → s.cancelled ≡ true → Fits built returned_from s
  abandoned :
      {s : LocalRunState} → s.status ≡ "running" → s.cancelled ≡ true → Fits built returned_from s

module _ (built : Result String (List (List ℕ))) where
  finish-running :
      (now : ℕ) (s : LocalRunState)
      → s.status ≡ "running"
      → s.node_errors ≡ []
      → Left built [] s
      → Fits built (finish now s).place (finish now s).state
  unfolding finish
  finish-running now s running clean (batches, e, left) = elim (Bool-cases s.cancelled) [
    | inl is_cancelled ↦ simp (is_cancelled) (abandoned running is_cancelled)
    | inr is_kept ↦
        simp (is_kept) (done refl refl clean (batches, e, λ n m. ground (arith, left n m)))
  ]

  next_batch-running :
      (now : ℕ) (rest : List (List ℕ)) (s : LocalRunState)
      → s.status ≡ "running"
      → s.node_errors ≡ []
      → Left built rest s
      → Fits built (next_batch now rest s).place (next_batch now rest s).state
  unfolding next_batch finish
  next_batch-running now [] s running clean left = finish-running now s running clean left
  next_batch-running now (batch ∷ rest) s running clean left = elim (Bool-cases s.cancelled) [
    | inl is_cancelled ↦ simp (is_cancelled) (abandoned running is_cancelled)
    | inr is_kept ↦ simp (is_kept) (working running is_kept clean left)
  ]

  next_batch-cancelled :
      (now : ℕ) (rest : List (List ℕ)) (s : LocalRunState)
      → s.status ≡ "cancelled"
      → s.cancelled ≡ true
      → Fits built (next_batch now rest s).place (next_batch now rest s).state
  unfolding next_batch finish
  next_batch-cancelled now [] s status is_cancelled =
      simp (is_cancelled) (stopped status is_cancelled)
  next_batch-cancelled now (batch ∷ rest) s status is_cancelled =
      simp (is_cancelled) (stopped status is_cancelled)

  begin_from :
      (now : ℕ) (s : LocalRunState) (graph : Result String (List (List ℕ)))
      → s.node_errors ≡ []
      → built ≡ graph
      → Fits built (begin now graph s).place (begin now graph s).state
  unfolding begin
  begin_from now s (err text) clean e = broken refl
  begin_from now s (ok batches) clean e =
      next_batch-running now batches (record s { status = "running"; started_at = some now }) refl
        clean (batches, e, λ n m. ground arith)

  begin-Fits :
      (now : ℕ) (s : LocalRunState)
      → s.node_errors ≡ []
      → Fits built (begin now built s).place (begin now built s).state
  begin-Fits now s clean = begin_from now s built clean refl

  -- What the loop over the results leaves: a failure; or the results of all nodes, and the rest.
  data Collected (results : List (ℕ × NodeOutcome)) (s : LocalRunState)
      : Bool × LocalRunState → Type 0 where
    failed_in : {t : LocalRunState} → t.status ≡ "failed" → Collected results s (false, t)
    all_in :
        {t : LocalRunState}
        → t.status ≡ s.status
        → t.cancelled ≡ s.cancelled
        → t.node_errors ≡ s.node_errors
        → ((n : ℕ)
            → contains n (keys t.node_results)
              ≡ (contains n (keys results) || contains n (keys s.node_results)))
        → Collected results s (true, t)

  Collected-later :
      (node : ℕ) (result : String) (results : List (ℕ × NodeOutcome)) (s : LocalRunState)
      {r : Bool × LocalRunState}
      → Collected results (record s { node_results = put node result s.node_results }) r
      → Collected ((node, returned result) ∷ results) s r
  Collected-later node result results s (failed_in e) = failed_in e
  Collected-later node result results s (all_in a b c d) =
      all_in a b c
        (λ n. d n ∙ ground (arith, contains-keys-put {V = String} n node result s.node_results))

  collect-Collected :
      (now : ℕ) (results : List (ℕ × NodeOutcome)) (s : LocalRunState)
      → Collected results s (collect now results s)
  unfolding collect
  collect-Collected now [] s = all_in refl refl refl (λ n. refl)
  collect-Collected now ((node, raised text) ∷ results) s = failed_in refl
  collect-Collected now ((node, returned result) ∷ results) s =
      Collected-later node result results s
        (collect-Collected now results (record s { node_results = put node result s.node_results }))

  after_batch-Fits :
      (now : ℕ) (results : List (ℕ × NodeOutcome)) (rest : List (List ℕ)) (s : LocalRunState)
      {r : Bool × LocalRunState}
      → Fits built (gathering (keys results) rest) s
      → Collected results s r
      → Fits built (after_batch now rest r).place (after_batch now rest r).state
  unfolding after_batch
  after_batch-Fits now results rest s fits (failed_in e) = broken e
  after_batch-Fits now results rest s (working a b c (batches, e, left)) (all_in {t} p q r d) =
      next_batch-running now rest t (p ∙ a) (r ∙ c) (
        batches,
        e,
        λ n m. ground (arith, left n m, d n, contains-append n (keys results) (concat rest)),
      )
  after_batch-Fits now results rest s (cancelled_working a b c left) (all_in {t} p q r d) =
      next_batch-cancelled now rest t (p ∙ a) (q ∙ b)

  cancel_run-Fits :
      (now : ℕ) (place : Place) (s : LocalRunState)
      → Fits built place s
      → Fits built place (cancel_run now s).1
  unfolding cancel_run
  cancel_run-Fits now place s (waiting a b c) = simp (a) (cancelled_waiting refl refl c)
  cancel_run-Fits now place s (cancelled_waiting a b c) = simp (a) (cancelled_waiting a b c)
  cancel_run-Fits now place s (working a b c d) = simp (a) (cancelled_working refl refl c d)
  cancel_run-Fits now place s (cancelled_working a b c d) = simp (a) (cancelled_working a b c d)
  cancel_run-Fits now place s (done a b c d) = simp (a) (done a b c d)
  cancel_run-Fits now place s (broken a) = simp (a) (broken a)
  cancel_run-Fits now place s (stopped a b) = simp (a) (stopped a b)
  cancel_run-Fits now place s (abandoned a b) = simp (a) (stopped refl refl)

  Step-Fits :
      {run next : Run}
      → Step built run next
      → Fits built run.place run.state
      → Fits built next.place next.state
  unfolding resume
  Step-Fits (starts now s) (waiting a b c) = begin-Fits now s c
  Step-Fits (starts now s) (cancelled_waiting a b c) = begin-Fits now s c
  Step-Fits (resumes now results rest s) fits =
      after_batch-Fits now results rest s fits (collect-Collected now results s)
  Step-Fits (cancels now run) fits = cancel_run-Fits now run.place run.state fits

  Reached-Fits : {run : Run} → Reached built run → Fits built run.place run.state
  unfolding submitted
  Reached-Fits at_start = waiting refl refl refl
  Reached-Fits (after reached step) = Step-Fits step (Reached-Fits reached)

-- Two texts that differ.
clash {ℓ} :
    {A : Type ℓ} {status : String} (a b : String) → status ≡ a → status ≡ b → (a == b) ≡ false → A
clash a b e f differ =
    absurd (ground (arith, ==_self a, subst (λ x. (a == x) ≡ false) (sym f ∙ e) differ))

Fits-completed :
    (built : Result String (List (List ℕ))) (place : Place) (s : LocalRunState)
    → Fits built place s
    → s.status ≡ "completed"
    → AllDone built s × (s.cancelled ≡ false) × (s.node_errors ≡ [])
Fits-completed built _ s (waiting a b c) e = clash "queued" "completed" a e refl
Fits-completed built _ s (cancelled_waiting a b c) e = clash "cancelled" "completed" a e refl
Fits-completed built _ s (working a b c d) e = clash "running" "completed" a e refl
Fits-completed built _ s (cancelled_working a b c d) e = clash "cancelled" "completed" a e refl
Fits-completed built _ s (done a b c d) e = (d, b, c)
Fits-completed built _ s (broken a) e = clash "failed" "completed" a e refl
Fits-completed built _ s (stopped a b) e = clash "cancelled" "completed" a e refl
Fits-completed built _ s (abandoned a b) e = clash "running" "completed" a e refl

-- However the steps of a run and its cancellations interleave: a run that counts as completed has a
-- result for every node of its graph's batches, has no failed node and was not cancelled.
pub completed_honest :
    (built : Result String (List (List ℕ))) (run : Run)
    → Reached built run
    → run.state.status ≡ "completed"
    → AllDone built run.state × (run.state.cancelled ≡ false) × (run.state.node_errors ≡ [])
completed_honest built run reached =
    Fits-completed built run.place run.state (Reached-Fits built reached)

Fits-returned :
    (built : Result String (List (List ℕ))) (s : LocalRunState)
    → Fits built returned_from s
    → (is_terminal s.status ≡ true) ⊎ ((s.status ≡ "running") × (s.cancelled ≡ true))
Fits-returned built s (done a b c d) = inl (simp (a) refl)
Fits-returned built s (broken a) = inl (simp (a) refl)
Fits-returned built s (stopped a b) = inl (simp (a) refl)
Fits-returned built s (abandoned a b) = inr (a, b)

-- When `_execute_run` has returned, the status of the run is terminal, or the run was cancelled
-- and its status is nevertheless "running".
pub returned_terminal :
    (built : Result String (List (List ℕ))) (s : LocalRunState)
    → Reached built (record { state = s; place = returned_from })
    → (is_terminal s.status ≡ true) ⊎ ((s.status ≡ "running") × (s.cancelled ≡ true))
returned_terminal built s reached = Fits-returned built s (Reached-Fits built reached)

IsOver : LocalRunState → Type 0
IsOver s = (s.status ≡ "completed") ⊎ (s.status ≡ "failed")

cancel_run-over : (now : ℕ) (s : LocalRunState) → IsOver s → (cancel_run now s).1 ≡ s
unfolding cancel_run IsOver
cancel_run-over now s (inl e) = simp (e) refl
cancel_run-over now s (inr e) = simp (e) refl

over_clash {ℓ} :
    {A : Type ℓ} (status : String) (s : LocalRunState)
    → s.status ≡ status
    → IsOver s
    → (status == "completed") ≡ false
    → (status == "failed") ≡ false
    → A
unfolding IsOver
over_clash status s e (inl f) c d = clash status "completed" e f c
over_clash status s e (inr f) c d = clash status "failed" e f d

unchanged :
    {built : Result String (List (List ℕ))} {run next : Run}
    → Step built run next
    → Fits built run.place run.state
    → IsOver run.state
    → next ≡ run
unchanged (starts now s) (waiting a b c) over = over_clash "queued" s a over refl refl
unchanged (starts now s) (cancelled_waiting a b c) over = over_clash "cancelled" s a over refl refl
unchanged (resumes now results rest s) (working a b c d) over =
    over_clash "running" s a over refl refl
unchanged (resumes now results rest s) (cancelled_working a b c d) over =
    over_clash "cancelled" s a over refl refl
unchanged (cancels now run) fits over =
    ap (λ (s : LocalRunState). record run { state = s }) (cancel_run-over now run.state over)

-- A completed or failed run stays as it is: no later step or cancellation changes it.
pub over_final :
    (built : Result String (List (List ℕ))) (run next : Run)
    → Reached built run
    → (run.state.status ≡ "completed") ⊎ (run.state.status ≡ "failed")
    → Step built run next
    → next ≡ run
unfolding IsOver
over_final built run next reached over step = unchanged step (Reached-Fits built reached) over
