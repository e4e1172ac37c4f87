-- ===== src/Core/Governance/Transfers.antt =====
-- `GovernanceService`: the workflow by which a resource changes its owner, and the direct transfer.
-- Times are in seconds.
pub mod Effects
pub mod Handover
use optaic_trading.Prelude.{
  ℕ, ◌+◌, ◌*◌, ◌≡◌, Bool, true, false, not, ◌&&◌, ◌||◌, Option, none, some, List, [], ◌∷◌, ◌++◌,
  any, keep, contains, String, ◌==◌, string_eq, nat_beq, ltb, if◌then◌else◌, Result, ok, err, ◌>>=◌,
  ◌>>◌,
}
use optaic_trading.Prelude.Dict.{Dict, keys, get, put, adjust}
use optaic_trading.Core.ResourceTypes.{transfer}
use optaic_trading.Core.Governance.{
  Resource, ResourceEdge, TransferRequest, PromotionRequest, Approval, Activity, Store,
  ActorContext, GovernanceError, resource_not_found, target_not_found, request_not_found,
  parent_not_found, destination_not_found, space_not_found, not_owner, pending_exists,
  not_recipient, not_sender, expired, not_a_branch, already_submitted, artifact_not_found,
  integrity_error, multiple_results_found, action_not_allowed, misplaced, not_pending, not_open,
  Call, raise, require, or_raise, one_or_none, of_tenant, find_resource, validate_action,
  placed_or_raise, validate_place, insert_row, same_edge, insert_edge, name_or, edge_by,
  activity_by, binding_of, is_active_binding, revoke, hand_over, copy_artifact, handled,
}

-- The identifiers of the rows as a list, in the order of the table
abbrev pub pending_of : ℕ → Dict TransferRequest → List ℕ
pending_of resource_id [] = []
pending_of resource_id ((id, t) ∷ transfers) =
    if nat_beq t.resource_id resource_id && (t.status == "pending")
    then id ∷ pending_of resource_id transfers
    else pending_of resource_id transfers

abbrev pub no_pending : Store → Option ℕ → Call {0} Unit
no_pending store none = ok tt
no_pending store (some id) = raise store pending_exists

-- `utcnow() + timedelta(days=…)`
abbrev pub expiry : ℕ → ℕ → ℕ
expiry now days = now + 86400 * days

abbrev pub requested : ℕ → ActorContext → ℕ → ℕ → Option String → TransferRequest
requested expires_at actor resource_id recipient_id message = record {
  tenant_id = actor.tenant_id;
  resource_id = resource_id;
  sender_id = actor.id;
  recipient_id = recipient_id;
  destination_project_id = none;
  message = message;
  response_message = none;
  status = "pending";
  expires_at = some expires_at;
  resolved_at = none;
}

-- The request `new_id` for a resource, to a recipient
unfoldable pub create_transfer_request :
    ℕ → ℕ → ℕ → ActorContext → ℕ → ℕ → Option String → Store → Call Store
create_transfer_request now expiry_days new_id actor resource_id recipient_id message store = do
  resource ← find_resource store actor resource_not_found resource_id
  validate_action store resource transfer
  require store (nat_beq resource.owner_principal_id actor.id) not_owner
  existing ← one_or_none store (pending_of resource_id store.transfers)
  no_pending store existing
  transfers ←
      insert_row store new_id
        (requested (expiry now expiry_days) actor resource_id recipient_id message) store.transfers
  ok (record store {
    transfers = transfers;
    activities =
        store.activities
        ++ activity_by actor resource_id resource.resource_type "transfer.requested" ∷ [];
  })

-- The guards that the answers to a request share: its tenant, a principal, and that it is pending.
abbrev pub request_of_tenant : Store → ActorContext → Option TransferRequest → Call TransferRequest
request_of_tenant store actor none = raise store request_not_found
request_of_tenant store actor (some t) =
    if nat_beq t.tenant_id actor.tenant_id then ok t else raise store request_not_found

unfoldable pub pending_request :
    Store → ActorContext → (TransferRequest → ℕ) → GovernanceError → ℕ → Call TransferRequest
pending_request store actor party error request_id = do
  t ← request_of_tenant store actor (get request_id store.transfers)
  require store (nat_beq (party t) actor.id) error
  require store (t.status == "pending") (not_pending t.status)
  ok t

-- `expires_at and expires_at < utcnow()`
abbrev pub is_expired : ℕ → Option ℕ → Bool
is_expired now none = false
is_expired now (some expires_at) = ltb expires_at now

abbrev pub set_status : String → TransferRequest → TransferRequest
set_status status t = record t { status = status }

-- The status is written before the exception is raised.
abbrev pub require_unexpired : ℕ → Store → ℕ → TransferRequest → Call {0} Unit
require_unexpired now store request_id t =
    require (record store { transfers = adjust request_id (set_status "expired") store.transfers })
      (not (is_expired now t.expires_at)) expired

abbrev pub moved_to : ActorContext → ℕ → Resource → Resource → Resource
moved_to actor destination_id destination resource = record resource {
  owner_principal_id = actor.id;
  parent_id = some destination_id;
  space_kind = destination.space_kind;
  subspace_kind = destination.subspace_kind;
}

abbrev pub accepted_at : ℕ → ℕ → Option String → TransferRequest → TransferRequest
accepted_at now destination_id response_message t = record t {
  status = "accepted";
  destination_project_id = some destination_id;
  response_message = response_message;
  resolved_at = some now;
}

-- What an acceptance writes
abbrev pub accepted :
    ℕ
    → ActorContext
    → ℕ
    → ℕ
    → Option String
    → TransferRequest
    → Resource
    → Resource
    → List ResourceEdge
    → Store
    → Store
accepted now actor request_id destination_id response_message t resource destination edges store =
    record store {
      resources = adjust t.resource_id (moved_to actor destination_id destination) store.resources;
      transfers =
          adjust request_id (accepted_at now destination_id response_message) store.transfers;
      edges = edges;
      bindings = hand_over actor t.resource_id resource.owner_principal_id actor.id store.bindings;
      activities =
          store.activities
          ++ activity_by actor t.resource_id resource.resource_type "transfer.accepted" ∷ [];
    }

unfoldable pub accept_transfer : ℕ → ActorContext → ℕ → ℕ → Option String → Store → Call Store
accept_transfer now actor request_id destination_id response_message store = do
  t ← pending_request store actor (λ t. t.recipient_id) not_recipient request_id
  require_unexpired now store request_id t
  resource ← or_raise store (get t.resource_id store.resources) resource_not_found
  validate_place store resource.resource_type destination_id
  destination ← or_raise store (get destination_id store.resources) destination_not_found
  edges ← insert_edge store (edge_by actor t.resource_id t.resource_id "transferred_from")
  ok (
      accepted now actor request_id destination_id response_message t resource destination edges
        store)

abbrev pub rejected_at : ℕ → Option String → TransferRequest → TransferRequest
rejected_at now response_message t = record t {
  status = "rejected";
  response_message = response_message;
  resolved_at = some now;
}

unfoldable pub reject_transfer : ℕ → ActorContext → ℕ → Option String → Store → Call Store
reject_transfer now actor request_id response_message store = do
  t ← pending_request store actor (λ t. t.recipient_id) not_recipient request_id
  ok (record store {
    transfers = adjust request_id (rejected_at now response_message) store.transfers;
    activities =
        store.activities ++ activity_by actor t.resource_id "Resource" "transfer.rejected" ∷ [];
  })

abbrev pub cancelled_at : ℕ → TransferRequest → TransferRequest
cancelled_at now t = record t { status = "cancelled"; resolved_at = some now }

unfoldable pub cancel_transfer : ℕ → ActorContext → ℕ → Store → Call Store
cancel_transfer now actor request_id store = do
  t ← pending_request store actor (λ t. t.sender_id) not_sender request_id
  ok (record store {
    transfers = adjust request_id (cancelled_at now) store.transfers;
    activities =
        store.activities ++ activity_by actor t.resource_id "Resource" "transfer.cancelled" ∷ [];
  })

abbrev pub set_owner : ℕ → Resource → Resource
set_owner owner_id resource = record resource { owner_principal_id = owner_id }

-- The direct transfer, which the source keeps for its old clients
unfoldable pub transfer_resource : ActorContext → ℕ → ℕ → Store → Call Store
transfer_resource actor resource_id target_owner_id store = do
  resource ← find_resource store actor resource_not_found resource_id
  validate_action store resource transfer
  require store (nat_beq resource.owner_principal_id actor.id) not_owner
  edges ← insert_edge store (edge_by actor resource_id resource_id "transferred_from")
  ok (record store {
    resources = adjust resource_id (set_owner target_owner_id) store.resources;
    edges = edges;
    bindings =
        hand_over actor resource_id resource.owner_principal_id target_owner_id store.bindings;
    activities =
        store.activities
        ++ activity_by actor resource_id resource.resource_type "resource.transferred" ∷ [];
  })

-- `get_pending_transfer_requests`: the identifiers
abbrev pub is_party : Bool → Bool → ActorContext → TransferRequest → Bool
is_party true true actor t = nat_beq t.sender_id actor.id || nat_beq t.recipient_id actor.id
is_party true false actor t = nat_beq t.sender_id actor.id
is_party false true actor t = nat_beq t.recipient_id actor.id
is_party false false actor t = false

unfoldable pub get_pending_transfer_requests :
    ActorContext → Bool → Bool → Dict TransferRequest → List ℕ
get_pending_transfer_requests actor as_sender as_recipient [] = []
get_pending_transfer_requests actor as_sender as_recipient ((id, t) ∷ transfers) =
    let rest = get_pending_transfer_requests actor as_sender as_recipient transfers in
    if nat_beq t.tenant_id actor.tenant_id
      && (t.status == "pending")
      && is_party as_sender as_recipient actor t
    then id ∷ rest
    else rest
