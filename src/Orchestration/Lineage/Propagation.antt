-- ===== src/Orchestration/Lineage/Propagation.antt =====
-- `propagate_staleness`, `update_upstream_status` and `check_all_upstreams_ready` of
-- libs/orchestration/lineage.py, over the objects of `DatasetInstance` (libs/db/models/quant.py) that
-- the session holds. A write to upstream_status is in the object, and in the table only as
-- flush_status says.
pub mod Downstream
pub mod Ready
pub mod Stored
pub mod Tests
use optaic_trading.Prelude.{
  ℕ, Bool, true, false, Option, none, some, List, [], ◌∷◌, ◌++◌, all, String, ◌==◌, string_eq,
  if◌then◌else◌,
}
use optaic_trading.Prelude.Dict.{Dict, get, put, adjust}
use optaic_trading.Database.{Arrangement}
use optaic_trading.Orchestration.Lineage.Table.{LineageRow}
use optaic_trading.Orchestration.Lineage.Traversal.{resolve_downstream_dependencies}

-- The columns of `DatasetInstance` that these operations read and write.
pub record Instance : Type 0 where
  pub freshness_status : String
  pub upstream_resource_ids : Option (List ℕ)
  pub upstream_status : Option (Dict String)

abbrev pub Instances : Type 0
Instances = Dict Instance

abbrev pub staled : Instance → Instance
staled dataset = record dataset { freshness_status = "stale" }

-- The loop over the downstream resources: the instances and the affected identifiers after it.
unfoldable pub mark_stale : List ℕ → Instances → List ℕ → Instances × List ℕ
mark_stale [] instances affected = (instances, affected)
mark_stale (id ∷ ids) instances affected = elim (get id instances) [
  | none ↦ mark_stale ids instances affected
  | some dataset ↦ elim (dataset.freshness_status == "stale") [
    | true ↦ mark_stale ids instances affected
    | false ↦ mark_stale ids (adjust id staled instances) (affected ++ id ∷ [])
  ]
]

-- What follows the search for the downstream resources.
unfoldable pub mark_found : Instances → Option (List ℕ) → Option (Instances × List ℕ)
mark_found instances none = none
mark_found instances (some downstreams) = some (mark_stale downstreams instances [])

unfoldable pub propagate_staleness :
    Arrangement LineageRow → List LineageRow → ℕ → Instances → Option (Instances × List ℕ)
propagate_staleness db rows resource_id instances =
    mark_found instances (resolve_downstream_dependencies db rows resource_id true)

-- `… or {}` and `… or []`
abbrev pub or_empty {ℓ} : {A : Type ℓ} → Option (List A) → List A
or_empty none = []
or_empty (some xs) = xs

-- upstream_status.get(str(uid)) == "ready"
abbrev pub is_ready_in : Dict String → ℕ → Bool
is_ready_in statuses uid = elim (get uid statuses) [
  | none ↦ false
  | some status ↦ status == "ready"
]

abbrev pub with_status : ℕ → String → Instance → Instance
with_status upstream_id status found = record found {
  upstream_status = some (put upstream_id status (or_empty found.upstream_status));
}

-- The column upstream_status after a flush, by the value that was loaded and the one that the object
-- holds. A dictionary that is loaded with entries is changed in place and assigned again, and
-- SQLAlchemy takes a column as unchanged that holds the object that was loaded; `… or {}` makes a new
-- dictionary of NULL and of an empty one.
unfoldable pub flush_status : Option (Dict String) → Option (Dict String) → Option (Dict String)
flush_status none current = current
flush_status (some []) current = current
flush_status (some (entry ∷ entries)) current = some (entry ∷ entries)

abbrev pub flushed_instance : Option Instance → Instance → Instance
flushed_instance none current = current
flushed_instance (some loaded) current = record current {
  upstream_status = flush_status loaded.upstream_status current.upstream_status;
}

-- What a later session loads after the flush, by the instances that were loaded and those held.
unfoldable pub reload : Instances → Instances → Instances
reload loaded [] = []
reload loaded ((id, current) ∷ instances) =
    (id, flushed_instance (get id loaded) current) ∷ reload loaded instances

-- Behind the lookup of the instance; the instances are the session's objects.
unfoldable pub update_found : ℕ → ℕ → String → Instances → Option Instance → Bool × Instances
update_found downstream_id upstream_id status instances none = (false, instances)
update_found downstream_id upstream_id status instances (some found) = (
  all (is_ready_in (put upstream_id status (or_empty found.upstream_status)))
      (or_empty found.upstream_resource_ids),
  put downstream_id (with_status upstream_id status found) instances,
)

-- Whether all upstream resources are ready, and the instances after the update.
unfoldable pub update_upstream_status : ℕ → ℕ → String → Instances → Bool × Instances
update_upstream_status downstream_id upstream_id status instances =
    update_found downstream_id upstream_id status instances (get downstream_id instances)

-- No upstream resources means ready.
abbrev pub all_ready_in : Dict String → List ℕ → Bool
all_ready_in statuses [] = true
all_ready_in statuses (uid ∷ uids) = all (is_ready_in statuses) (uid ∷ uids)

unfoldable pub check_found : Option Instance → Bool
check_found none = false
check_found (some found) =
    all_ready_in (or_empty found.upstream_status) (or_empty found.upstream_resource_ids)

unfoldable pub check_all_upstreams_ready : ℕ → Instances → Bool
check_all_upstreams_ready instance_id instances = check_found (get instance_id instances)
