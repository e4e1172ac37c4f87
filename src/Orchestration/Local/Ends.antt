-- ===== src/Orchestration/Local/Ends.antt =====
-- Every run of the local orchestrator ends once its nodes answer.
use optaic_trading.Prelude.{
  ℕ, zero, suc, ◌≤◌, ◌≡◌, ◌⊎◌, Bool, true, false, some, List, [], ◌∷◌, length, Result, ok, err,
  String, arith, refl, ap, subst, Bool-cases, inl, inr, ⊎_elim,
}
use optaic_trading.Prelude.Dict.{keys}
use optaic_trading.Orchestration.Local.{
  NodeOutcome, LocalRunState, is_terminal, Place, scheduled, gathering, returned_from, Run, finish,
  next_batch, begin, collect, after_batch, resume, Step, starts, resumes, cancels, Reached,
  at_start, after,
}
use optaic_trading.Orchestration.Local.Runs.{returned_terminal}

-- The answers of a batch
abbrev pub answers : (ℕ → NodeOutcome) → List ℕ → List (ℕ × NodeOutcome)
answers outcome [] = []
answers outcome (node ∷ batch) = (node, outcome node) ∷ answers outcome batch

keys-answers : (outcome : ℕ → NodeOutcome) (batch : List ℕ) → keys (answers outcome batch) ≡ batch
keys-answers outcome [] = refl
keys-answers outcome (node ∷ batch) = ap (λ (l : List ℕ). node ∷ l) (keys-answers outcome batch)

abbrev pub count_batches : Result String (List (List ℕ)) → ℕ
count_batches (err text) = 0
count_batches (ok batches) = length batches

module _ (built : Result String (List (List ℕ))) where
  -- How often a run still waits, at most
  abbrev pub waits : Place → ℕ
  waits scheduled = suc (count_batches built)
  waits (gathering batch rest) = suc (length rest)
  waits returned_from = 0

  module _ (now : ℕ) (outcome : ℕ → NodeOutcome) where
    -- The next step of the run itself, with no cancellation
    advance : LocalRunState → Place → Run
    advance state scheduled = begin now built state
    advance state (gathering batch rest) = resume now rest (answers outcome batch) state
    advance state returned_from = record { state = state; place = returned_from }

    -- A number of steps of the run itself
    pub drive : ℕ → Run → Run
    unfolding advance
    drive zero run = run
    drive (suc steps) run = drive steps (advance run.state run.place)

    next_batch-waits :
        (rest : List (List ℕ)) (s : LocalRunState)
        → waits (next_batch now rest s).place ≤ length rest
    unfolding next_batch finish
    next_batch-waits [] s = elim (Bool-cases s.cancelled) [
      | inl e ↦ simp (e) (omega arith)
      | inr e ↦ simp (e) (omega arith)
    ]
    next_batch-waits (batch ∷ rest) s = elim (Bool-cases s.cancelled) [
      | inl e ↦ simp (e) (omega arith)
      | inr e ↦ simp (e) (omega arith)
    ]

    begin-waits :
        (graph : Result String (List (List ℕ))) (s : LocalRunState)
        → waits (begin now graph s).place ≤ count_batches graph
    unfolding begin
    begin-waits (err text) s = omega arith
    begin-waits (ok batches) s =
        next_batch-waits batches (record s { status = "running"; started_at = some now })

    after_batch-waits :
        (rest : List (List ℕ)) (collected : Bool × LocalRunState)
        → waits (after_batch now rest collected).place ≤ length rest
    unfolding after_batch
    after_batch-waits rest (true, s) = next_batch-waits rest s
    after_batch-waits rest (false, s) = omega arith

    advance-waits :
        (state : LocalRunState) (place : Place) (n : ℕ)
        → waits place ≤ suc n
        → waits (advance state place).place ≤ n
    unfolding advance resume
    advance-waits state scheduled n h = omega (arith, begin-waits built state, h)
    advance-waits state (gathering batch rest) n h =
        omega (arith, after_batch-waits rest (collect now (answers outcome batch) state), h)
    advance-waits state returned_from n h = omega arith

    no_waits : (place : Place) → waits place ≤ 0 → place ≡ returned_from
    no_waits scheduled h = absurd (omega arith)
    no_waits (gathering batch rest) h = absurd (omega arith)
    no_waits returned_from h = refl

    drive-returned : (n : ℕ) (run : Run) → waits run.place ≤ n → (drive n run).place ≡ returned_from
    unfolding drive
    drive-returned zero run h = no_waits run.place h
    drive-returned (suc n) run h =
        drive-returned n (advance run.state run.place) (advance-waits run.state run.place n h)

    advance-Reached :
        (state : LocalRunState) (place : Place)
        → Reached built (record { state = state; place = place })
        → Reached built (advance state place)
    unfolding advance
    advance-Reached state scheduled reached = after reached (starts now state)
    advance-Reached state (gathering batch rest) reached = after reached (
        subst
          (λ (nodes : List ℕ).
            Step built (record { state = state; place = gathering nodes rest })
              (resume now rest (answers outcome batch) state))
          (keys-answers outcome batch) (resumes now (answers outcome batch) rest state))
    advance-Reached state returned_from reached = reached

    drive-Reached : (n : ℕ) (run : Run) → Reached built run → Reached built (drive n run)
    unfolding drive
    drive-Reached zero run reached = reached
    drive-Reached (suc n) run reached =
        drive-Reached n (advance run.state run.place) (advance-Reached run.state run.place reached)

  -- The batches of the graph and the start bound the waits of every run.
  Step-waits :
      {run next : Run} (outcome : ℕ → NodeOutcome)
      → Step built run next
      → waits run.place ≤ suc (count_batches built)
      → waits next.place ≤ suc (count_batches built)
  unfolding resume
  Step-waits outcome (starts now s) h = omega (arith, begin-waits now outcome built s)
  Step-waits outcome (resumes now results rest s) h =
      omega (arith, after_batch-waits now outcome rest (collect now results s), h)
  Step-waits outcome (cancels now run) h = h

  Reached-waits :
      {run : Run} (outcome : ℕ → NodeOutcome)
      → Reached built run
      → waits run.place ≤ suc (count_batches built)
  Reached-waits outcome at_start = omega arith
  Reached-waits outcome (after reached step) =
      Step-waits outcome step (Reached-waits outcome reached)

-- Wherever a run stands, cancelled or not: if each node that it waits for answers, in whatever way,
-- then after as many steps as it has batches, and one, `_execute_run` has returned, and the status is
-- terminal, or the run was cancelled.
pub run_ends :
    (built : Result String (List (List ℕ))) (run : Run) (now : ℕ) (outcome : ℕ → NodeOutcome)
    → Reached built run
    → (let end = drive built now outcome (suc (count_batches built)) run in
        (end.place ≡ returned_from)
        × ((is_terminal end.state.status ≡ true) ⊎ (end.state.cancelled ≡ true)))
run_ends built run now outcome reached =
    let steps = suc (count_batches built) in
    let end = drive built now outcome steps run in
    let over : end.place ≡ returned_from =
      drive-returned built now outcome steps run (Reached-waits built outcome reached) in
    let end_reached : Reached built (record { state = end.state; place = returned_from }) =
      subst (λ (p : Place). Reached built (record { state = end.state; place = p })) over
        (drive-Reached built now outcome steps run reached) in
    (
      over,
      ⊎_elim inl (λ (running, is_cancelled). inr is_cancelled)
          (returned_terminal built end.state end_reached),
    )
