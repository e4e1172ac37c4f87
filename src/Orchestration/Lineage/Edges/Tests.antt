-- ===== src/Orchestration/Lineage/Edges/Tests.antt =====
-- Edges on a small table, and the theorems about them there.
use optaic_trading.Prelude.{
  ℕ, zero, suc, ◌≡◌, true, Bool, ◌||◌, none, some, [], ◌∷◌, Option, any, contains, refl, ok, err,
  ◌++◌,
}
use optaic_trading.Orchestration.Lineage.Traversal.Tests.{diamond}
use optaic_trading.Orchestration.Lineage.Edges.{
  flush, foreign_key, LineageDag, Links, create_lineage_and_subscriptions, with_dataset,
  without_dataset, PipelineConfig, Instances, build_dag_for_instance,
}
use optaic_trading.Orchestration.Lineage.Edges.Rows.{
  AddsRemoves, add_remove-AddsRemoves, opened, IsLinked, create_lineage-IsLinked,
}
use optaic_trading.Orchestration.Lineage.Edges.Configured.{names, build_dag-names}

-- Resources 1 to 5 of tenant 9; instance 5 is a principal as well.
abbrev links : Links
links = record {
  tenants = 9 ∷ [];
  resources = 1 ∷ 2 ∷ 3 ∷ 4 ∷ 5 ∷ [];
  principals = 5 ∷ [];
  lineage = diamond;
  subscriptions = [];
}

add_remove-AddsRemoves_example : AddsRemoves 9 1 4 "data_dependency" links
add_remove-AddsRemoves_example =
    add_remove-AddsRemoves 9 1 4 "data_dependency" links refl refl refl refl

abbrev dag : LineageDag
dag = record { instance_id = 5; tenant_id = 9; upstream_ids = 1 ∷ 4 ∷ [] }

abbrev linked : Links
linked = record links {
  lineage =
      diamond
      ++ record {
        tenant_id = 9;
        upstream_resource_id = 1;
        downstream_resource_id = 5;
        edge_kind = "data_dependency";
      }
        ∷ record {
          tenant_id = 9;
          upstream_resource_id = 4;
          downstream_resource_id = 5;
          edge_kind = "data_dependency";
        }
        ∷ [];
  subscriptions =
      record { tenant_id = 9; principal_id = 5; resource_id = 1; scope = "completion" }
      ∷ record { tenant_id = 9; principal_id = 5; resource_id = 4; scope = "completion" }
      ∷ [];
}

linking : flush (create_lineage_and_subscriptions dag (opened links)) ≡ ok linked
unfolding flush create_lineage_and_subscriptions
linking = refl

create_lineage-IsLinked_example : IsLinked dag links linked
create_lineage-IsLinked_example = create_lineage-IsLinked dag links linked linking

-- An instance that is no principal
not_linking :
    flush (create_lineage_and_subscriptions dag (opened (record links { principals = [] })))
    ≡ err foreign_key
unfolding flush create_lineage_and_subscriptions
not_linking = refl

-- A value is a number that is a UUID if it is not 0, and each value is true.
abbrev parsed : ℕ → Option ℕ
parsed zero = none
parsed (suc n) = some (suc n)

abbrev truth : ℕ → Bool
truth n = true

abbrev config : PipelineConfig ℕ parsed truth
config = record {
  input_datasets = some (0 ∷ 1 ∷ []);
  upstream_datasets = none;
  expression_inputs = none;
  sources = some (without_dataset ∷ with_dataset 4 ∷ []);
}

abbrev session : Instances ℕ parsed truth
session = record { datasets = (5, 6) ∷ []; pipelines = (6, config) ∷ []; experiments = [] }

build_dag-names_example :
    contains 4 (build_dag_for_instance ℕ parsed truth session 5 9).upstream_ids ≡ (
      any (names ℕ parsed truth 4) (0 ∷ 1 ∷ [])
      || any (names ℕ parsed truth 4) []
      || any (names ℕ parsed truth 4) []
      || any (names ℕ parsed truth 4) (4 ∷ []))
build_dag-names_example = build_dag-names ℕ parsed truth session 5 9 6 config refl refl refl 4
