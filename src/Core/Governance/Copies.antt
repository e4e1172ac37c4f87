-- ===== src/Core/Governance/Copies.antt =====
-- `GovernanceService`: copies by reference, branches with files of their own, and merges of a branch.
use Prim.Native.String.{◌++◌ as append}
use optaic_trading.Prelude.{
  ℕ, Bool, ◌&&◌, Option, none, some, List, [], ◌∷◌, ◌++◌, keep, String, ◌==◌, string_eq, nat_beq,
  if◌then◌else◌, ok, ◌>>=◌, ◌>>◌,
}
use optaic_trading.Prelude.Dict.{Dict, adjust}
use optaic_trading.Core.ResourceTypes.{copy, branch, merge}
use optaic_trading.Core.Access.{RoleBinding}
use optaic_trading.Core.Governance.{
  Resource, ResourceEdge, Store, ActorContext, resource_not_found, target_not_found, not_a_branch,
  artifact_not_found, Call, raise, one_or_none, find_resource, validate_action, validate_place,
  insert_row, insert_edge, name_or, edge_by, activity_by, binding_of, copy_artifact,
}

abbrev pub copied_from : ActorContext → ℕ → Option String → Resource → Resource
copied_from actor parent_id name source = record {
  tenant_id = actor.tenant_id;
  resource_type = source.resource_type;
  parent_id = some parent_id;
  owner_principal_id = actor.id;
  space_kind = source.space_kind;
  subspace_kind = source.subspace_kind;
  name = name_or name (append "Copy of " source.name);
  status = "active";
  artifact_ref = source.artifact_ref;
}

unfoldable pub copy_resource : ℕ → ActorContext → ℕ → ℕ → Option String → Store → Call Store
copy_resource new_id actor source_id parent_id name store = do
  source ← find_resource store actor resource_not_found source_id
  validate_action store source copy
  validate_place store source.resource_type parent_id
  resources ← insert_row store new_id (copied_from actor parent_id name source) store.resources
  edges ← insert_edge store (edge_by actor new_id source_id "copy_of")
  ok (record store {
    resources = resources;
    edges = edges;
    activities =
        store.activities ++ activity_by actor new_id source.resource_type "resource.copied" ∷ [];
  })

-- The copy of a resource's files, if it has any: the reference to the copy, and the session
abbrev pub with_artifacts : Store → ℕ → Option (Dict String) → Call (Option ℕ × Store)
with_artifacts store new_ref none = raise store artifact_not_found
with_artifacts store new_ref (some folders) =
    ok (some new_ref, record store { artifacts = folders })

abbrev pub copy_files : Store → ℕ → Option ℕ → Call (Option ℕ × Store)
copy_files store new_ref none = ok (none, store)
copy_files store new_ref (some source_ref) =
    with_artifacts store new_ref (copy_artifact source_ref new_ref store.artifacts)

abbrev pub branched_from : ActorContext → ℕ → Option String → Option ℕ → Resource → Resource
branched_from actor parent_id name artifact_ref source = record {
  tenant_id = actor.tenant_id;
  resource_type = source.resource_type;
  parent_id = some parent_id;
  owner_principal_id = actor.id;
  space_kind = some "personal";
  subspace_kind = some "custom";
  name = name_or name (append "Branch of " source.name);
  status = "active";
  artifact_ref = artifact_ref;
}

-- The owner of the source sees the branch, unless it is the actor's own.
abbrev pub branch_bindings : ActorContext → ℕ → ℕ → List RoleBinding
branch_bindings actor new_id source_owner_id =
    binding_of actor actor.id new_id "owner"
    ∷ (if nat_beq source_owner_id actor.id
        then []
        else binding_of actor source_owner_id new_id "viewer" ∷ [])

unfoldable pub branch_resource : ℕ → ℕ → ActorContext → ℕ → ℕ → Option String → Store → Call Store
branch_resource new_id new_ref actor source_id parent_id name store = do
  source ← find_resource store actor resource_not_found source_id
  validate_action store source branch
  validate_place store source.resource_type parent_id
  (artifact_ref, session) ← copy_files store new_ref source.artifact_ref
  resources ←
      insert_row session new_id (branched_from actor parent_id name artifact_ref source)
        session.resources
  edges ← insert_edge session (edge_by actor new_id source_id "branch_of")
  ok (record session {
    resources = resources;
    edges = edges;
    bindings = session.bindings ++ branch_bindings actor new_id source.owner_principal_id;
    activities =
        session.activities
        ++ activity_by actor new_id source.resource_type "resource.branched" ∷ [];
  })

abbrev pub is_branch_edge : ActorContext → ℕ → ℕ → ResourceEdge → Bool
is_branch_edge actor source_id target_id e =
    nat_beq e.tenant_id actor.tenant_id
    && nat_beq e.src_resource_id source_id
    && nat_beq e.dst_resource_id target_id
    && (e.edge_type == "branch_of")

abbrev pub require_branch : Store → Option ResourceEdge → Call {0} Unit
require_branch store none = raise store not_a_branch
require_branch store (some edge) = ok tt

abbrev pub set_artifact : Option ℕ → Resource → Resource
set_artifact artifact_ref resource = record resource { artifact_ref = artifact_ref }

abbrev pub as_merged : Resource → Resource
as_merged resource = record resource { status = "merged" }

unfoldable pub merge_resource : ActorContext → ℕ → ℕ → Store → Call Store
merge_resource actor source_id target_id store = do
  source ← find_resource store actor resource_not_found source_id
  target ← find_resource store actor target_not_found target_id
  validate_action store source merge
  branch_edge ← one_or_none store (keep (is_branch_edge actor source_id target_id) store.edges)
  require_branch store branch_edge
  edges ← insert_edge store (edge_by actor target_id source_id "merged_from")
  ok (record store {
    resources =
        adjust source_id as_merged
          (adjust target_id (set_artifact source.artifact_ref) store.resources);
    edges = edges;
    activities =
        store.activities ++ activity_by actor target_id target.resource_type "resource.merged" ∷ [];
  })
