-- ===== src/Core/Governance/Transfers/Effects.antt =====
-- What each step of the workflow did, when it returned.
use optaic_trading.Prelude.{
  ℕ, ◌≡◌, true, false, not, Option, none, some, List, [], ◌∷◌, ◌++◌, any, contains, ap, subst, ◌∙◌,
  sym, nat_beq, ok, arith, refl, String, string_eq, >>=-eq-ok, >>-eq-ok,
}
use optaic_trading.Prelude.Dict.{keys, get, put, adjust}
use optaic_trading.Core.ResourceTypes.{transfer, valid, validate_placement}
use optaic_trading.Core.Governance.{
  Resource, ResourceEdge, TransferRequest, Store, ActorContext, resource_not_found,
  destination_not_found, not_owner, not_recipient, not_sender, expired, same_edge, require,
  or_raise, one_or_none, find_resource, validate_action, validate_place, insert_row, insert_edge,
  edge_by,
}
use optaic_trading.Core.Governance.Guards.{
  ok-injective, require-eq-ok, or_raise-eq-ok, one_or_none-eq-none, find_resource-eq-ok,
  insert_row-eq-ok, insert_edge-eq-ok, validate_place-eq-ok, IsAnswerable, pending_request-eq-ok,
}
use optaic_trading.Core.Governance.Transfers.{
  pending_of, no_pending, expiry, requested, create_transfer_request, pending_request, is_expired,
  require_unexpired, accepted, accept_transfer, rejected_at, reject_transfer, cancelled_at,
  cancel_transfer, transfer_resource,
}

no_pending-eq-ok : (store : Store) (o : Option ℕ) {u : Unit} → no_pending store o ≡ ok u → o ≡ none
no_pending-eq-ok store none returned = refl
no_pending-eq-ok store (some id) returned = cc

pub record IsCreated (now expiry_days new_id : ℕ) (actor : ActorContext)
    (resource_id recipient_id : ℕ) (message : Option String) (before after : Store) : Type 0 where
  pub resource : Resource
  pub resource_found : get resource_id before.resources ≡ some resource
  pub is_owner : nat_beq resource.owner_principal_id actor.id ≡ true
  pub none_pending : pending_of resource_id before.transfers ≡ []
  pub is_new : contains new_id (keys before.transfers) ≡ false
  pub transfers_after :
      after.transfers
      ≡ put new_id
          (requested (expiry now expiry_days) actor resource_id recipient_id message)
          before.transfers
  pub edges_after : after.edges ≡ before.edges
  pub resources_after : after.resources ≡ before.resources

pub create-IsCreated :
    (now expiry_days new_id : ℕ) (actor : ActorContext) (resource_id recipient_id : ℕ)
    (message : Option String) (store : Store) {after : Store}
    → create_transfer_request now expiry_days new_id actor resource_id recipient_id message store
      ≡ ok after
    → IsCreated now expiry_days new_id actor resource_id recipient_id message store after
unfolding create_transfer_request
create-IsCreated now days new_id actor resource_id recipient_id message store returned =
    let (r, e, rest) =
      >>=-eq-ok (find_resource store actor resource_not_found resource_id) _ returned in
    let (_, _, rest1) = >>-eq-ok (validate_action store r transfer) _ rest in
    let (_, owner, rest2) =
      >>-eq-ok (require store (nat_beq r.owner_principal_id actor.id) not_owner) _ rest1 in
    let (existing, one, rest3) =
      >>=-eq-ok (one_or_none store (pending_of resource_id store.transfers)) _ rest2 in
    let (_, free, rest4) = >>-eq-ok (no_pending store existing) _ rest3 in
    let row = requested (expiry now days) actor resource_id recipient_id message in
    let (transfers, inserted, last) =
      >>=-eq-ok (insert_row store new_id row store.transfers) _ rest4 in
    let (is_new, e_put) = insert_row-eq-ok store new_id row store.transfers inserted in
    let none_left : existing ≡ none = no_pending-eq-ok store existing free in
    record {
      resource = r;
      resource_found = (find_resource-eq-ok store actor resource_not_found resource_id e).0;
      is_owner = require-eq-ok store _ not_owner owner;
      none_pending =
          one_or_none-eq-none store (pending_of resource_id store.transfers)
            (one ∙ ap (λ (o : Option ℕ). ok o) none_left);
      is_new = is_new;
      transfers_after = cc;
      edges_after = cc;
      resources_after = cc;
    }

pub record IsAccepted (now : ℕ) (actor : ActorContext) (request_id destination_id : ℕ)
    (response_message : Option String) (before after : Store) : Type 0 where
  pub request : TransferRequest
  pub is_answerable : IsAnswerable before actor (λ t. t.recipient_id) request_id request
  pub is_in_time : is_expired now request.expires_at ≡ false
  pub resource : Resource
  pub resource_found : get request.resource_id before.resources ≡ some resource
  pub destination : Resource
  pub destination_found : get destination_id before.resources ≡ some destination
  pub is_placed : validate_placement resource.resource_type (some destination.resource_type) ≡ valid
  pub is_first :
      any
        (same_edge (edge_by actor request.resource_id request.resource_id "transferred_from"))
        before.edges
      ≡ false
  pub after_is :
      after
      ≡ accepted now actor request_id destination_id response_message request resource destination
          (before.edges
            ++ edge_by actor request.resource_id request.resource_id "transferred_from" ∷ [])
          before

pub accept-IsAccepted :
    (now : ℕ) (actor : ActorContext) (request_id destination_id : ℕ)
    (response_message : Option String) (store : Store) {after : Store}
    → accept_transfer now actor request_id destination_id response_message store ≡ ok after
    → IsAccepted now actor request_id destination_id response_message store after
unfolding accept_transfer
accept-IsAccepted now actor request_id destination_id message store returned =
    let (t, e, rest) =
      >>=-eq-ok (pending_request store actor (λ t. t.recipient_id) not_recipient request_id) _
        returned in
    let (_, unexpired, rest1) = >>-eq-ok (require_unexpired now store request_id t) _ rest in
    let (resource, e_resource, rest2) =
      >>=-eq-ok (or_raise store (get t.resource_id store.resources) resource_not_found) _ rest1 in
    let (parent, e_parent, rest3) =
      >>=-eq-ok (validate_place store resource.resource_type destination_id) _ rest2 in
    let (destination, e_destination, rest4) =
      >>=-eq-ok (or_raise store (get destination_id store.resources) destination_not_found) _
        rest3 in
    let edge = edge_by actor t.resource_id t.resource_id "transferred_from" in
    let (edges, e_edges, last) = >>=-eq-ok (insert_edge store edge) _ rest4 in
    let (is_first, appended) = insert_edge-eq-ok store edge e_edges in
    let (found_parent, placed) =
      validate_place-eq-ok store resource.resource_type destination_id e_parent in
    let found =
      or_raise-eq-ok store (get destination_id store.resources) destination_not_found
        e_destination in
    let same : parent ≡ destination = cc in
    record {
      request = t;
      is_answerable =
          pending_request-eq-ok store actor (λ t. t.recipient_id) not_recipient request_id e;
      is_in_time =
          ground (arith, require-eq-ok _ (not (is_expired now t.expires_at)) expired unexpired);
      resource = resource;
      resource_found = or_raise-eq-ok store _ resource_not_found e_resource;
      destination = destination;
      destination_found = found;
      is_placed =
          subst
            (λ (p : Resource).
              validate_placement resource.resource_type (some p.resource_type) ≡ valid)
            same placed;
      is_first = is_first;
      after_is =
          ok-injective refl (sym last)
          ∙ ap
              (λ (es : List ResourceEdge).
                accepted now actor request_id destination_id message t resource destination es
                  store)
              (sym appended);
    }

-- A rejection or a cancellation: the request changes, and an activity is recorded.
pub record IsAnswered (actor : ActorContext) (party : TransferRequest → ℕ) (request_id : ℕ)
    (change : TransferRequest → TransferRequest) (before after : Store) : Type 0 where
  pub request : TransferRequest
  pub is_answerable : IsAnswerable before actor party request_id request
  pub transfers_after : after.transfers ≡ adjust request_id change before.transfers
  pub edges_after : after.edges ≡ before.edges
  pub resources_after : after.resources ≡ before.resources

pub reject-IsAnswered :
    (now : ℕ) (actor : ActorContext) (request_id : ℕ) (response_message : Option String)
    (store : Store) {after : Store}
    → reject_transfer now actor request_id response_message store ≡ ok after
    → IsAnswered actor
        (λ t. t.recipient_id)
        request_id
        (rejected_at now response_message)
        store
        after
unfolding reject_transfer
reject-IsAnswered now actor request_id message store returned =
    let (t, e, last) =
      >>=-eq-ok (pending_request store actor (λ t. t.recipient_id) not_recipient request_id) _
        returned in
    record {
      request = t;
      is_answerable =
          pending_request-eq-ok store actor (λ t. t.recipient_id) not_recipient request_id e;
      transfers_after = cc;
      edges_after = cc;
      resources_after = cc;
    }

pub cancel-IsAnswered :
    (now : ℕ) (actor : ActorContext) (request_id : ℕ) (store : Store) {after : Store}
    → cancel_transfer now actor request_id store ≡ ok after
    → IsAnswered actor (λ t. t.sender_id) request_id (cancelled_at now) store after
unfolding cancel_transfer
cancel-IsAnswered now actor request_id store returned =
    let (t, e, last) =
      >>=-eq-ok (pending_request store actor (λ t. t.sender_id) not_sender request_id) _ returned in
    record {
      request = t;
      is_answerable = pending_request-eq-ok store actor (λ t. t.sender_id) not_sender request_id e;
      transfers_after = cc;
      edges_after = cc;
      resources_after = cc;
    }

pub record IsDirect (actor : ActorContext) (resource_id target_owner_id : ℕ) (before after : Store)
    : Type 0 where
  pub resource : Resource
  pub resource_found : get resource_id before.resources ≡ some resource
  pub is_owner : nat_beq resource.owner_principal_id actor.id ≡ true
  pub is_first :
      any (same_edge (edge_by actor resource_id resource_id "transferred_from")) before.edges
      ≡ false
  pub edges_after :
      before.edges ++ edge_by actor resource_id resource_id "transferred_from" ∷ [] ≡ after.edges
  pub transfers_after : after.transfers ≡ before.transfers

pub transfer-IsDirect :
    (actor : ActorContext) (resource_id target_owner_id : ℕ) (store : Store) {after : Store}
    → transfer_resource actor resource_id target_owner_id store ≡ ok after
    → IsDirect actor resource_id target_owner_id store after
unfolding transfer_resource
transfer-IsDirect actor resource_id target store returned =
    let (r, e, rest) =
      >>=-eq-ok (find_resource store actor resource_not_found resource_id) _ returned in
    let (_, _, rest1) = >>-eq-ok (validate_action store r transfer) _ rest in
    let (_, owner, rest2) =
      >>-eq-ok (require store (nat_beq r.owner_principal_id actor.id) not_owner) _ rest1 in
    let edge = edge_by actor resource_id resource_id "transferred_from" in
    let (edges, e_edges, last) = >>=-eq-ok (insert_edge store edge) _ rest2 in
    let (is_first, appended) = insert_edge-eq-ok store edge e_edges in
    record {
      resource = r;
      resource_found = (find_resource-eq-ok store actor resource_not_found resource_id e).0;
      is_owner = require-eq-ok store _ not_owner owner;
      is_first = is_first;
      edges_after = cc;
      transfers_after = cc;
    }
