-- ===== src/Orchestration/Observers/Tests.antt =====
-- The completion of a dataset that two others depend on, and the theorem about it there.
use optaic_trading.Prelude.{ℕ, ◌≡◌, none, some, List, [], ◌∷◌, string_eq, refl}
use optaic_trading.Database.{stored}
use optaic_trading.Orchestration.Lineage.Table.{select_downstream}
use optaic_trading.Orchestration.Lineage.Traversal.Tests.{diamond}
use optaic_trading.Orchestration.Lineage.Propagation.{
  Instance, Instances, update_upstream_status, update_found,
}
use optaic_trading.Orchestration.Observers.{notify, on_upstream_completed}
use optaic_trading.Orchestration.Observers.Ready.{IsNotified, on_upstream_completed-IsNotified}

abbrev waiting : List ℕ → Instance
waiting ids = record {
  freshness_status = "stale";
  upstream_resource_ids = some ids;
  upstream_status = none;
}

-- 4 needs 2 and 3; 2 and 3 need 1; 3 needs 9 as well.
abbrev instances : Instances
instances = (2, waiting (1 ∷ [])) ∷ (3, waiting (1 ∷ 9 ∷ [])) ∷ (4, waiting (2 ∷ 3 ∷ [])) ∷ []

told_two : (on_upstream_completed stored diamond 1 instances).0 ≡ 2 ∷ []
unfolding on_upstream_completed notify update_upstream_status update_found select_downstream
told_two = refl

on_upstream_completed-IsNotified_example :
    IsNotified diamond 1 instances (on_upstream_completed stored diamond 1 instances)
on_upstream_completed-IsNotified_example =
    on_upstream_completed-IsNotified stored diamond 1 instances
