-- ===== src/Core/Governance/History/Tests.antt =====
-- The lineage of a resource with a circle in it, and the theorem about it there.
use optaic_trading.Prelude.{◌≡◌, none, some, List, [], ◌∷◌, String, string_eq, refl}
use optaic_trading.Prelude.Dict.{Dict}
use optaic_trading.Database.{stored}
use optaic_trading.Core.Governance.{Resource, ResourceEdge, ActorContext, edge_by}
use optaic_trading.Core.Governance.History.{LineageEntry, next_ids, get_resource_lineage}
use optaic_trading.Core.Governance.History.Nearest.{
  IsLineage, is_shown, follows, get_resource_lineage-IsLineage,
}

abbrev dataset : String → Resource
dataset name = record {
  tenant_id = 9;
  resource_type = "DatasetInstance";
  parent_id = none;
  owner_principal_id = 1;
  space_kind = none;
  subspace_kind = none;
  name = name;
  status = "active";
  artifact_ref = none;
}

abbrev datasets : Dict Resource
datasets = (1, dataset "a") ∷ (2, dataset "b") ∷ (3, dataset "c") ∷ []

abbrev actor : ActorContext
actor = record { id = 1; tenant_id = 9 }

-- 1 is a branch of 2 and of 3, and 2 of 3; 3 was merged from 1.
abbrev edges : List ResourceEdge
edges =
    edge_by actor 1 2 "branch_of"
    ∷ edge_by actor 2 3 "branch_of"
    ∷ edge_by actor 1 3 "branch_of"
    ∷ edge_by actor 3 1 "merged_from"
    ∷ []

both_found :
    get_resource_lineage stored datasets edges actor 1 "upstream" [] 10
    ≡ some (
        record { id = 2; name = "b"; resource_type = "DatasetInstance"; depth = 1 }
        ∷ record { id = 3; name = "c"; resource_type = "DatasetInstance"; depth = 1 }
        ∷ [])
unfolding get_resource_lineage next_ids
both_found = refl

get_resource_lineage-IsLineage_example :
    (lineage : List LineageEntry) × (get_resource_lineage stored datasets edges actor 1 "upstream"
        ("branch_of" ∷ [])
        1
      ≡ some lineage)
    × IsLineage
        (follows actor "upstream" ("branch_of" ∷ []) edges)
        (is_shown actor datasets 1)
        1
        1
        lineage
get_resource_lineage-IsLineage_example =
    get_resource_lineage-IsLineage stored actor "upstream" ("branch_of" ∷ []) edges datasets 1 1
