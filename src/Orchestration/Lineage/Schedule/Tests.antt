-- ===== src/Orchestration/Lineage/Schedule/Tests.antt =====
-- Execution orders of small tables, and the theorems about them there.
use optaic_trading.Prelude.{ok, err, ℕ, ◌≡◌, ◌⊎◌, ◌↔◌, refl, List, [], ◌∷◌}
use optaic_trading.Database.{stored}
use optaic_trading.Orchestration.Lineage.Table.{select_upstream}
use optaic_trading.Orchestration.Lineage.Traversal.{resolve_upstream_dependencies}
use optaic_trading.Orchestration.Lineage.Traversal.Tests.{diamond, loop}
use optaic_trading.Orchestration.Lineage.Schedule.{
  cycle_detected, execution_order, build_dependencies, order_found, get_execution_order,
}
use optaic_trading.Orchestration.Lineage.Schedule.Correct.{
  IsSchedule, Deadlock, get_execution_order_total, get_execution_order-IsSchedule,
  get_execution_order-cycle,
}

diamond_order : get_execution_order stored diamond 4 ≡ ok ((1 ∷ []) ∷ (2 ∷ 3 ∷ []) ∷ (4 ∷ []) ∷ [])
unfolding get_execution_order order_found execution_order build_dependencies
    resolve_upstream_dependencies select_upstream
diamond_order = refl

loop_order : get_execution_order stored loop 3 ≡ err cycle_detected
unfolding get_execution_order order_found execution_order build_dependencies
    resolve_upstream_dependencies select_upstream
loop_order = refl

get_execution_order_total_example :
    ((batches : List (List ℕ)) × (get_execution_order stored loop 3 ≡ ok batches))
    ⊎ (get_execution_order stored loop 3 ≡ err cycle_detected)
get_execution_order_total_example = get_execution_order_total stored loop 3

get_execution_order-IsSchedule_example :
    IsSchedule diamond 4 ((1 ∷ []) ∷ (2 ∷ 3 ∷ []) ∷ (4 ∷ []) ∷ [])
get_execution_order-IsSchedule_example =
    get_execution_order-IsSchedule stored diamond 4 ((1 ∷ []) ∷ (2 ∷ 3 ∷ []) ∷ (4 ∷ []) ∷ [])
      diamond_order

get_execution_order-cycle_example :
    (get_execution_order stored loop 3 ≡ err cycle_detected) ↔ Deadlock loop 3
get_execution_order-cycle_example = get_execution_order-cycle stored loop 3
