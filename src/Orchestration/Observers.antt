-- ===== src/Orchestration/Observers.antt =====
-- libs/orchestration/observers.py: what `LineageObserver` does when an upstream run starts, completes
-- or fails. It queries the lineage table and updates the cached statuses of the resolver.
pub mod Updates
pub mod Ready
pub mod Batch
pub mod Tests
use optaic_trading.Prelude.{
  ℕ, Bool, true, false, Option, none, some, List, [], ◌∷◌, ◌++◌, String, if◌then◌else◌,
}
use optaic_trading.Prelude.Dict.{get}
use optaic_trading.Database.{Arrangement}
use optaic_trading.Orchestration.Lineage.Table.{LineageRow, select_downstream}
use optaic_trading.Orchestration.Lineage.Propagation.{Instance, Instances, update_upstream_status}

abbrev pub add_if : Bool → ℕ → List ℕ → List ℕ
add_if true id ids = ids ++ id ∷ []
add_if false id ids = ids

-- The loop over the downstream instances: those that are ready, and the instances after it
unfoldable pub notify : ℕ → List ℕ → Instances → List ℕ → List ℕ × Instances
notify upstream_id [] instances ready_ids = (ready_ids, instances)
notify upstream_id (id ∷ ids) instances ready_ids = elim (get id instances) [
  | none ↦ notify upstream_id ids instances ready_ids
  | some found ↦
      let (all_ready, updated) = update_upstream_status id upstream_id "ready" instances in
      notify upstream_id ids updated (add_if all_ready id ready_ids)
]

unfoldable pub on_upstream_completed :
    Arrangement LineageRow → List LineageRow → ℕ → Instances → List ℕ × Instances
on_upstream_completed db rows upstream_id instances =
    notify upstream_id (select_downstream db rows upstream_id) instances []

-- The loops of the other two events: every downstream identifier is affected.
unfoldable pub mark_each : ℕ → String → List ℕ → Instances → Instances
mark_each upstream_id status [] instances = instances
mark_each upstream_id status (id ∷ ids) instances =
    mark_each upstream_id status ids (update_upstream_status id upstream_id status instances).1

unfoldable pub on_upstream_failed :
    Arrangement LineageRow → List LineageRow → ℕ → Instances → List ℕ × Instances
on_upstream_failed db rows upstream_id instances =
    let downstream_ids = select_downstream db rows upstream_id in
    (downstream_ids, mark_each upstream_id "error" downstream_ids instances)

unfoldable pub on_upstream_started :
    Arrangement LineageRow → List LineageRow → ℕ → Instances → List ℕ × Instances
on_upstream_started db rows upstream_id instances =
    let downstream_ids = select_downstream db rows upstream_id in
    (downstream_ids, mark_each upstream_id "running" downstream_ids instances)
