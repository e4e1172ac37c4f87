-- ===== src/Orchestration/Lineage/Traversal/Tests.antt =====
-- The searches on a small table, and the theorems about them there.
use optaic_trading.Prelude.{ℕ, ◌≡◌, refl, true, List, [], ◌∷◌, some}
use optaic_trading.Database.{stored}
use optaic_trading.Orchestration.Lineage.Table.{LineageRow, select_upstream, select_downstream}
use optaic_trading.Orchestration.Lineage.Traversal.{
  resolve_upstream_dependencies, resolve_downstream_dependencies,
}
use optaic_trading.Orchestration.Lineage.Traversal.Correct.{
  upstream_link, downstream_link, ListsReachable, resolve_upstream-reachable,
  resolve_downstream-reachable,
}

abbrev pub depends_on : ℕ → ℕ → LineageRow
depends_on d u = record {
  tenant_id = 1;
  upstream_resource_id = u;
  downstream_resource_id = d;
  edge_kind = "data_dependency";
}

-- 4 depends on 2 and 3, which both depend on 1.
abbrev pub diamond : List LineageRow
diamond = depends_on 4 2 ∷ depends_on 4 3 ∷ depends_on 2 1 ∷ depends_on 3 1 ∷ []

-- 1 and 2 depend on one another, and 3 depends on 2.
abbrev pub loop : List LineageRow
loop = depends_on 3 2 ∷ depends_on 2 1 ∷ depends_on 1 2 ∷ []

-- A resource that two others depend on is listed twice.
diamond_upstream : resolve_upstream_dependencies stored diamond 4 true ≡ some (2 ∷ 3 ∷ 1 ∷ 1 ∷ [])
unfolding resolve_upstream_dependencies select_upstream
diamond_upstream = refl

loop_downstream : resolve_downstream_dependencies stored loop 1 true ≡ some (2 ∷ 3 ∷ [])
unfolding resolve_downstream_dependencies select_downstream
loop_downstream = refl

resolve_upstream-reachable_example :
    (found : List ℕ) × (resolve_upstream_dependencies stored diamond 4 true ≡ some found)
    × ListsReachable (upstream_link diamond) 4 found
resolve_upstream-reachable_example = resolve_upstream-reachable stored diamond 4

resolve_downstream-reachable_example :
    (found : List ℕ) × (resolve_downstream_dependencies stored loop 1 true ≡ some found)
    × ListsReachable (downstream_link loop) 1 found
resolve_downstream-reachable_example = resolve_downstream-reachable stored loop 1
