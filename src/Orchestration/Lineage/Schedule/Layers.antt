-- ===== src/Orchestration/Lineage/Schedule/Layers.antt =====
-- The schedule that `get_execution_order` has to produce, described without degrees: a batch is
-- all of the remaining resources that depend on no remaining resource.
use optaic_trading.Prelude.{
  ok, err, ◌>>=◌, ℕ, zero, suc, ◌+◌, Bool, not, List, [], ◌∷◌, keep, contains, if◌then◌else◌,
  nat_beq,
}
use optaic_trading.Orchestration.Lineage.Schedule.{Outcome, cycle_detected, out_of_fuel}

-- How many of the resources `ds` are among `rem`.
abbrev pub blockers : List ℕ → List ℕ → ℕ
blockers [] rem = 0
blockers (d ∷ ds) rem = (if contains d rem then 1 else 0) + blockers ds rem

module _ (deps : ℕ → List ℕ) where
  abbrev pub is_free : List ℕ → ℕ → Bool
  is_free rem k = nat_beq (blockers (deps k) rem) 0

  unfoldable pub layers : ℕ → List ℕ → Outcome (List (List ℕ))
  layers fuel [] = ok []
  layers zero (r ∷ rem) = err out_of_fuel
  layers (suc fuel) (r ∷ rem) = elim (keep (is_free (r ∷ rem)) (r ∷ rem)) [
    | [] ↦ err cycle_detected
    | b ∷ batch ↦ layers fuel (keep (λ k. not (is_free (r ∷ rem) k)) (r ∷ rem)) >>= λ batches.
        ok ((b ∷ batch) ∷ batches)
  ]
