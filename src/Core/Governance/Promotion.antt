-- ===== src/Core/Governance/Promotion.antt =====
-- `GovernanceService`: the promotion of a resource to a team's staging subspace, and its approval.
pub mod Approvals
use Prim.Native.String.{◌++◌ as append}
use optaic_trading.Prelude.{
  ℕ, suc, ◌+◌, ◌≡◌, Bool, true, false, not, ◌&&◌, ◌||◌, Option, none, some, List, [], ◌∷◌, ◌++◌,
  length, leb, any, keep, contains, String, ◌==◌, string_eq, nat_beq, if◌then◌else◌, Result, ok,
  err, ◌>>=◌, ◌>>◌,
}
use optaic_trading.Prelude.Dict.{Dict, keys, get, put, adjust}
use optaic_trading.Core.ResourceTypes.{promote}
use optaic_trading.Core.Access.{RoleBinding}
use optaic_trading.Core.Governance.{
  Resource, ResourceEdge, TransferRequest, PromotionRequest, Approval, Activity, Store,
  ActorContext, GovernanceError, resource_not_found, target_not_found, request_not_found,
  parent_not_found, destination_not_found, space_not_found, not_owner, pending_exists,
  not_recipient, not_sender, expired, not_a_branch, already_submitted, artifact_not_found,
  integrity_error, multiple_results_found, action_not_allowed, misplaced, not_pending, not_open,
  Call, raise, require, or_raise, one_or_none, of_tenant, find_resource, validate_action,
  placed_or_raise, validate_place, insert_row, same_edge, insert_edge, name_or, edge_by,
  activity_by, binding_of, is_active_binding, revoke, hand_over, copy_artifact, handled,
}
use optaic_trading.Core.Governance.Copies.{copy_files}

abbrev pub is_kind : Option String → String → Bool
is_kind none name = false
is_kind (some kind) name = kind == name

abbrev pub is_under : Option ℕ → ℕ → Bool
is_under none id = false
is_under (some parent_id) id = nat_beq parent_id id

abbrev pub is_subspace : ℕ → String → ℕ × Resource → Bool
is_subspace space_id kind (id, r) =
    is_under r.parent_id space_id && (r.resource_type == "SubSpace") && is_kind r.subspace_kind kind

abbrev pub of_actor : ActorContext → ℕ × Resource → Bool
of_actor actor (id, r) = nat_beq r.tenant_id actor.tenant_id

abbrev pub staging_under : ActorContext → ℕ → Resource → Resource
staging_under actor space_id space = record {
  tenant_id = actor.tenant_id;
  resource_type = "SubSpace";
  parent_id = some space_id;
  owner_principal_id = space.owner_principal_id;
  space_kind = space.space_kind;
  subspace_kind = some "staging";
  name = "Staging";
  status = "active";
  artifact_ref = none;
}

abbrev pub staging_or_new : ActorContext → ℕ → ℕ → Store → Option (ℕ × Resource) → Call (ℕ × Store)
staging_or_new actor space_id new_id store (some (id, staging)) = ok (id, store)
staging_or_new actor space_id new_id store none = do
  space ← or_raise store (get space_id store.resources) space_not_found
  resources ← insert_row store new_id (staging_under actor space_id space) store.resources
  ok (new_id, record store { resources = resources })

abbrev pub is_staging : ActorContext → ℕ → ℕ × Resource → Bool
is_staging actor space_id entry = of_actor actor entry && is_subspace space_id "staging" entry

-- `_get_or_create_staging_subspace`
unfoldable pub get_or_create_staging_subspace : ActorContext → ℕ → ℕ → Store → Call (ℕ × Store)
get_or_create_staging_subspace actor space_id new_id store =
    one_or_none store (keep (is_staging actor space_id) store.resources)
    >>= staging_or_new actor space_id new_id store

-- `_get_official_subspace`
unfoldable pub get_official_subspace : ℕ → Store → Call (Option (ℕ × Resource))
get_official_subspace space_id store =
    one_or_none store (keep (is_subspace space_id "official") store.resources)

abbrev pub promoted_from : ActorContext → ℕ → ℕ → Option String → Option ℕ → Resource → Resource
promoted_from actor staging_id team_id name artifact_ref source = record {
  tenant_id = actor.tenant_id;
  resource_type = source.resource_type;
  parent_id = some staging_id;
  owner_principal_id = team_id;
  space_kind = some "team";
  subspace_kind = some "staging";
  name = name_or name source.name;
  status = "pending_approval";
  artifact_ref = artifact_ref;
}

abbrev pub request_resource : ActorContext → ℕ → String → Resource
request_resource actor staging_id name = record {
  tenant_id = actor.tenant_id;
  resource_type = "PromotionRequest";
  parent_id = some staging_id;
  owner_principal_id = actor.id;
  space_kind = none;
  subspace_kind = none;
  name = append "Promote " name;
  status = "open";
  artifact_ref = none;
}

-- official_subspace.id if official_subspace else staging_subspace.id
abbrev pub scope_or : ℕ → Option (ℕ × Resource) → ℕ
scope_or staging_id none = staging_id
scope_or staging_id (some (id, official)) = id

abbrev pub promotion_of : ActorContext → ℕ → ℕ → ℕ → ℕ → PromotionRequest
promotion_of actor pr_id new_id staging_id scope_id = record {
  tenant_id = actor.tenant_id;
  pr_resource_id = pr_id;
  moving_resource_id = new_id;
  from_scope_id = some staging_id;
  to_scope_id = scope_id;
  mode = "promote";
  status = "open";
  required_approvals = 1;
  created_by = actor.id;
}

-- The identifiers that a promotion draws
pub record PromotionIds : Type 0 where
  pub staging_id : ℕ
  pub new_ref : ℕ
  pub new_id : ℕ
  pub pr_id : ℕ
  pub request_id : ℕ

-- From the first flush on: the bindings, and the request for approval
unfoldable pub file_promotion :
    PromotionIds → ActorContext → ℕ → ℕ → ℕ → String → Resource → Store → Call Store
file_promotion ids actor space_id team_id staging_id source_type new_resource session = do
  official ← get_official_subspace space_id session
  resources ←
      insert_row session ids.pr_id (request_resource actor staging_id new_resource.name)
        session.resources
  promotions ←
      insert_row session ids.request_id
        (promotion_of actor ids.pr_id ids.new_id staging_id (scope_or staging_id official))
        session.promotions
  ok (record session {
    resources = resources;
    promotions = promotions;
    bindings =
        session.bindings
        ++ binding_of actor team_id ids.new_id "owner"
          ∷ binding_of actor actor.id ids.new_id "delegator"
          ∷ [];
    activities =
        session.activities ++ activity_by actor ids.new_id source_type "resource.promoted" ∷ [];
  })

unfoldable pub promote_resource :
    PromotionIds → ActorContext → ℕ → ℕ → ℕ → Option String → Store → Call Store
promote_resource ids actor source_id space_id team_id name store = do
  source ← find_resource store actor resource_not_found source_id
  validate_action store source promote
  (staging_id, staged) ← get_or_create_staging_subspace actor space_id ids.staging_id store
  (artifact_ref, session) ← copy_files staged ids.new_ref source.artifact_ref
  let new_resource = promoted_from actor staging_id team_id name artifact_ref source
  resources ← insert_row session ids.new_id new_resource session.resources
  edges ← insert_edge session (edge_by actor ids.new_id source_id "promoted_from")
  file_promotion ids actor space_id team_id staging_id source.resource_type new_resource
      (record session { resources = resources; edges = edges })

abbrev pub promotion_of_tenant :
    Store → ActorContext → Option PromotionRequest → Call PromotionRequest
promotion_of_tenant store actor none = raise store request_not_found
promotion_of_tenant store actor (some p) =
    if nat_beq p.tenant_id actor.tenant_id then ok p else raise store request_not_found

abbrev pub is_submitted : ActorContext → ℕ → Approval → Bool
is_submitted actor pr_id a =
    nat_beq a.tenant_id actor.tenant_id
    && nat_beq a.resource_id pr_id
    && nat_beq a.approver_id actor.id

abbrev pub is_approving : ActorContext → ℕ → Approval → Bool
is_approving actor pr_id a =
    nat_beq a.tenant_id actor.tenant_id && nat_beq a.resource_id pr_id && (a.decision == "approved")

abbrev pub none_submitted : Store → Option Approval → Call {0} Unit
none_submitted store none = ok tt
none_submitted store (some a) = raise store already_submitted

-- The session does not flush before a query, so that the query counts the approvals but the new one.
unfoldable pub approval_count : ActorContext → ℕ → Store → ℕ
approval_count actor pr_id store = length (keep (is_approving actor pr_id) store.approvals) + 1

abbrev pub moved_official : ℕ → Resource → Resource
moved_official scope_id resource = record resource {
  parent_id = some scope_id;
  subspace_kind = some "official";
  status = "active";
}

abbrev pub as_merged_request : PromotionRequest → PromotionRequest
as_merged_request p = record p { status = "merged" }

-- The move, if the resource is there
abbrev pub move_official : ActorContext → ℕ → PromotionRequest → Store → Option Resource → Store
move_official actor request_id p store none = store
move_official actor request_id p store (some resource) = record store {
  resources = adjust p.moving_resource_id (moved_official p.to_scope_id) store.resources;
  promotions = adjust request_id as_merged_request store.promotions;
  activities =
      store.activities
      ++ activity_by actor p.moving_resource_id resource.resource_type "promotion.completed" ∷ [];
}

abbrev pub approve_counted : ActorContext → ℕ → PromotionRequest → ℕ → Store → Store
approve_counted actor request_id p count store =
    if leb p.required_approvals count
    then move_official actor request_id p store (get p.moving_resource_id store.resources)
    else store

abbrev pub approval_by : ActorContext → ℕ → Option String → Approval
approval_by actor pr_id comment = record {
  tenant_id = actor.tenant_id;
  resource_id = pr_id;
  approver_id = actor.id;
  decision = "approved";
  comment = comment;
}

abbrev pub with_activity : Activity → Store → Store
with_activity activity store = record store { activities = store.activities ++ activity ∷ [] }

unfoldable pub approve_promotion : ActorContext → ℕ → Option String → Store → Call Store
approve_promotion actor request_id comment store = do
  p ← promotion_of_tenant store actor (get request_id store.promotions)
  require store (p.status == "open") (not_open p.status)
  existing ← one_or_none store (keep (is_submitted actor p.pr_resource_id) store.approvals)
  none_submitted store existing
  ok (
      with_activity (activity_by actor p.pr_resource_id "PromotionRequest" "promotion.approved") (
        approve_counted actor request_id p (approval_count actor p.pr_resource_id store)
          (record store {
            approvals = store.approvals ++ approval_by actor p.pr_resource_id comment ∷ [];
          })))

-- `get_pending_promotions`: the identifiers
abbrev pub is_for_space : Option ℕ → PromotionRequest → Bool
is_for_space none p = true
is_for_space (some space_id) p = nat_beq p.to_scope_id space_id

unfoldable pub get_pending_promotions : ActorContext → Option ℕ → Dict PromotionRequest → List ℕ
get_pending_promotions actor space_id promotions = keys (
    keep
      (λ (id, p).
        nat_beq p.tenant_id actor.tenant_id && (p.status == "open") && is_for_space space_id p)
      promotions)
