-- ===== src/Core/Governance.antt =====
-- libs/core/governance.py: what the operations of `GovernanceService` share, the tables that they
-- read and write (libs/db/models), and its helpers. The operations are in the children. A session
-- holds the rows with what was written to them; a rollback discards it. Rows keep no creation time
-- and no granter, and resources no metadata. The clock is read once in an operation, and
-- identifiers that `uuid4` draws are arguments.
pub mod Guards
pub mod Transfers
pub mod Copies
pub mod Promotion
pub mod Templates
pub mod History
pub mod Service
pub mod Tests
use Prim.Native.String.{◌++◌ as append}
use optaic_trading.Prelude.{
  ℕ, ◌+◌, ◌*◌, ◌≡◌, Bool, true, false, not, ◌&&◌, ◌||◌, Option, none, some, List, [], ◌∷◌, ◌++◌,
  map, any, keep, contains, String, ◌==◌, string_eq, nat_eq, nat_beq, if◌then◌else◌, Result, ok,
  err, ◌>>=◌, ◌>>◌,
}
use optaic_trading.Prelude.Dict.{Dict, keys, get, put, adjust}
use optaic_trading.Core.ResourceTypes.{
  GovernanceAction, Placement, valid, is_action_allowed, validate_placement,
}
use optaic_trading.Core.Access.{RoleBinding}

pub record Resource : Type 0 where
  pub tenant_id : ℕ
  pub resource_type : String
  pub parent_id : Option ℕ
  pub owner_principal_id : ℕ
  pub space_kind : Option String
  pub subspace_kind : Option String
  pub name : String
  pub status : String
  pub artifact_ref : Option ℕ

pub record ResourceEdge : Type 0 where
  pub tenant_id : ℕ
  pub src_resource_id : ℕ
  pub dst_resource_id : ℕ
  pub edge_type : String
  pub created_by_principal_id : Option ℕ

pub record TransferRequest : Type 0 where
  pub tenant_id : ℕ
  pub resource_id : ℕ
  pub sender_id : ℕ
  pub recipient_id : ℕ
  pub destination_project_id : Option ℕ
  pub message : Option String
  pub response_message : Option String
  pub status : String
  pub expires_at : Option ℕ
  pub resolved_at : Option ℕ

pub record PromotionRequest : Type 0 where
  pub tenant_id : ℕ
  pub pr_resource_id : ℕ
  pub moving_resource_id : ℕ
  pub from_scope_id : Option ℕ
  pub to_scope_id : ℕ
  pub mode : String
  pub status : String
  pub required_approvals : ℕ
  pub created_by : ℕ

pub record Approval : Type 0 where
  pub tenant_id : ℕ
  pub resource_id : ℕ
  pub approver_id : ℕ
  pub decision : String
  pub comment : Option String

-- What `record_activity_with_outbox` writes, less the payload. Its key is drawn, so the tests for
-- an activity with the same key find none.
pub record Activity : Type 0 where
  pub tenant_id : ℕ
  pub actor_principal_id : ℕ
  pub resource_id : ℕ
  pub resource_type : String
  pub action : String

-- The tables, and the folders of the artifact manager with their contents
pub record Store : Type 0 where
  pub resources : Dict Resource
  pub edges : List ResourceEdge
  pub bindings : List RoleBinding
  pub transfers : Dict TransferRequest
  pub promotions : Dict PromotionRequest
  pub approvals : List Approval
  pub activities : List Activity
  pub artifacts : Dict String

pub record ActorContext : Type 0 where
  pub id : ℕ
  pub tenant_id : ℕ

-- An exception, by what it reports: `ValueError`, `ResourceTypeError` or `PlacementError` of the
-- service; `FileNotFoundError`; or what the database raises.
pub data GovernanceError : Type 0 where
  resource_not_found target_not_found request_not_found parent_not_found destination_not_found :
      GovernanceError
  space_not_found not_owner pending_exists not_recipient not_sender expired not_a_branch :
      GovernanceError
  already_submitted artifact_not_found integrity_error multiple_results_found : GovernanceError
  action_not_allowed : GovernanceAction → GovernanceError
  misplaced : Placement → GovernanceError
  not_pending : String → GovernanceError
  not_open : String → GovernanceError

-- A call in a session: what it returns, or an exception with the state that it leaves.
abbrev pub Call {ℓ} : Type ℓ → Type ℓ
Call A = Result (GovernanceError × Store) A

-- Every column of an edge but its creator belongs to the key.
abbrev pub same_edge : ResourceEdge → ResourceEdge → Bool
same_edge e f =
    nat_beq e.tenant_id f.tenant_id
    && nat_beq e.src_resource_id f.src_resource_id
    && nat_beq e.dst_resource_id f.dst_resource_id
    && (e.edge_type == f.edge_type)

module _ (store : Store) where
  abbrev pub raise {ℓ} : {A : Type ℓ} → GovernanceError → Call A
  raise error = err (error, store)

  -- `if not test: raise error`
  abbrev pub require : Bool → GovernanceError → Call {0} Unit
  require true error = ok tt
  require false error = raise error

  abbrev pub or_raise {ℓ} : {A : Type ℓ} → Option A → GovernanceError → Call A
  or_raise none error = raise error
  or_raise (some value) error = ok value

  -- `scalar_one_or_none`
  abbrev pub one_or_none {ℓ} : {A : Type ℓ} → List A → Call (Option A)
  one_or_none [] = ok none
  one_or_none (row ∷ []) = ok (some row)
  one_or_none (row ∷ other ∷ rows) = raise multiple_results_found

  -- A resource of the actor's tenant: `session.get`, and the guard that follows it
  abbrev pub of_tenant : ActorContext → GovernanceError → Option Resource → Call Resource
  of_tenant actor error none = raise error
  of_tenant actor error (some resource) =
      if nat_beq resource.tenant_id actor.tenant_id then ok resource else raise error

  abbrev pub find_resource : ActorContext → GovernanceError → ℕ → Call Resource
  find_resource actor error id = of_tenant actor error (get id store.resources)

  -- `_validate_action`
  abbrev pub validate_action : Resource → GovernanceAction → Call {0} Unit
  validate_action resource action =
      require (is_action_allowed resource.resource_type action) (action_not_allowed action)

  abbrev pub placed_or_raise : Resource → Placement → Call Resource
  placed_or_raise parent valid = ok parent
  placed_or_raise parent placement = raise (misplaced placement)

  -- `_validate_placement`, which returns the parent
  abbrev pub validate_place : String → ℕ → Call Resource
  validate_place resource_type parent_id =
      or_raise (get parent_id store.resources) parent_not_found >>= λ parent.
      placed_or_raise parent (validate_placement resource_type (some parent.resource_type))

  -- A row of a table whose key is `id`: the flush fails where the key is in use.
  abbrev pub insert_row {ℓ} : {Row : Type ℓ} → ℕ → Row → Dict Row → Call (Dict Row)
  insert_row id row rows =
      if contains id (keys rows) then raise integrity_error else ok (put id row rows)

  abbrev pub insert_edge : ResourceEdge → Call (List ResourceEdge)
  insert_edge edge =
      if any (same_edge edge) store.edges
      then raise integrity_error
      else ok (store.edges ++ edge ∷ [])

-- `name or default`
abbrev pub name_or : Option String → String → String
name_or none default = default
name_or (some name) default = if name == "" then default else name

abbrev pub edge_by : ActorContext → ℕ → ℕ → String → ResourceEdge
edge_by actor src dst edge_type = record {
  tenant_id = actor.tenant_id;
  src_resource_id = src;
  dst_resource_id = dst;
  edge_type = edge_type;
  created_by_principal_id = some actor.id;
}

abbrev pub activity_by : ActorContext → ℕ → String → String → Activity
activity_by actor resource_id resource_type action = record {
  tenant_id = actor.tenant_id;
  actor_principal_id = actor.id;
  resource_id = resource_id;
  resource_type = resource_type;
  action = action;
}

abbrev pub binding_of : ActorContext → ℕ → ℕ → String → RoleBinding
binding_of actor principal_id resource_id role_name = record {
  tenant_id = actor.tenant_id;
  principal_id = principal_id;
  scope_resource_id = resource_id;
  role_name = role_name;
  revoked = false;
}

-- The condition of the queries for active bindings of a principal at a resource with a role
abbrev pub is_active_binding : ℕ → ℕ → ℕ → String → RoleBinding → Bool
is_active_binding tenant_id principal_id resource_id role_name b =
    nat_beq b.tenant_id tenant_id
    && nat_beq b.principal_id principal_id
    && nat_beq b.scope_resource_id resource_id
    && (b.role_name == role_name)
    && not b.revoked

-- `for binding in bindings: binding.revoked_at = utcnow()`, for those that satisfy a test
abbrev pub revoke : (RoleBinding → Bool) → List RoleBinding → List RoleBinding
revoke test = map (λ b. if test b then record b { revoked = true } else b)

-- The RBAC mutations of both forms of a transfer
abbrev pub hand_over : ActorContext → ℕ → ℕ → ℕ → List RoleBinding → List RoleBinding
hand_over actor resource_id previous_owner_id owner_id bindings =
    revoke (is_active_binding actor.tenant_id previous_owner_id resource_id "owner") bindings
    ++ binding_of actor owner_id resource_id "owner"
      ∷ binding_of actor previous_owner_id resource_id "viewer"
      ∷ []

-- `ArtifactManager.copy_artifact` (libs/core/artifacts.py), with a new identifier for the copy
unfoldable pub copy_artifact : ℕ → ℕ → Dict String → Option (Dict String)
copy_artifact source_ref target_ref folders = elim (get source_ref folders) [
  | none ↦ none
  | some contents ↦ some (put target_ref contents folders)
]

-- What a router commits: the session after a call that returned. After an exception the database
-- is as before, and files that were copied stay.
unfoldable pub handled : Store → Call Store → Store
handled before (ok after) = after
handled before (err (error, session)) = record before { artifacts = session.artifacts }
