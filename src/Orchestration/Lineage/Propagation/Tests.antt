-- ===== src/Orchestration/Lineage/Propagation/Tests.antt =====
-- Staleness on a small table, and the theorems about it there.
use optaic_trading.Prelude.{ℕ, ◌≡◌, none, some, List, [], ◌∷◌, true, false, string_eq, refl}
use optaic_trading.Database.{stored}
use optaic_trading.Orchestration.Lineage.Traversal.Tests.{diamond}
use optaic_trading.Orchestration.Lineage.Propagation.{
  Instance, Instances, propagate_staleness, update_upstream_status, update_found,
  check_all_upstreams_ready, check_found,
}
use optaic_trading.Orchestration.Lineage.Propagation.Downstream.{
  IsPropagated, propagate_staleness-IsPropagated,
}

abbrev fresh : List ℕ → Instance
fresh ids = record {
  freshness_status = "fresh";
  upstream_resource_ids = some ids;
  upstream_status = none;
}

-- The datasets of the table that has 4 on 2 and 3, and both on 1.
abbrev instances : Instances
instances = (1, fresh []) ∷ (2, fresh (1 ∷ [])) ∷ (3, fresh (1 ∷ [])) ∷ (4, fresh (2 ∷ 3 ∷ [])) ∷ []

propagate_staleness-IsPropagated_example :
    (after : Instances) × (affected : List ℕ) × (propagate_staleness stored diamond 1 instances
      ≡ some (after, affected))
    × IsPropagated diamond 1 instances after affected
propagate_staleness-IsPropagated_example =
    propagate_staleness-IsPropagated stored diamond 1 instances

-- Dataset 4, whose upstream resource 2 is ready in the table
abbrev half_ready : Instance
half_ready = record (fresh (2 ∷ 3 ∷ [])) { upstream_status = some ((2, "ready") ∷ []) }

-- The update says that the dataset is ready, and the table says that it is not.
told_ready : (update_upstream_status 4 3 "ready" ((4, half_ready) ∷ [])).0 ≡ true
unfolding update_upstream_status update_found
told_ready = refl

not_ready : check_all_upstreams_ready 4 ((4, half_ready) ∷ []) ≡ false
unfolding check_all_upstreams_ready check_found
not_ready = refl
