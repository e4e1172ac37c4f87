-- ===== src/Core/Governance/Guards.antt =====
-- What a call that returned says of its guards.
use optaic_trading.Prelude.{
  ℕ, ◌≡◌, Bool, true, false, Option, none, some, List, [], ◌∷◌, ◌++◌, any, contains, nat_beq, ok,
  arith, refl, ap, ◌∙◌, subst, >>=-eq-ok, >>-eq-ok, String, ◌==◌, string_eq,
}
use optaic_trading.Prelude.Dict.{Dict, keys, get, put}
use optaic_trading.Core.ResourceTypes.{
  Placement, valid, unknown_outside_project, parent_given, must_be_under, validate_placement,
}
use optaic_trading.Core.Governance.Transfers.{request_of_tenant, pending_request}
use optaic_trading.Core.Governance.{
  Resource, ResourceEdge, TransferRequest, Store, ActorContext, GovernanceError, parent_not_found,
  not_pending, Call, require, or_raise, one_or_none, of_tenant, find_resource, placed_or_raise,
  validate_place, insert_row, same_edge, insert_edge,
}

pub ok-injective : {call : Call Store} {a b : Store} → call ≡ ok a → call ≡ ok b → a ≡ b
ok-injective e f = cc

module _ (store : Store) where
  pub require-eq-ok :
      (test : Bool) (error : GovernanceError) {u : Unit}
      → require store test error ≡ ok u
      → test ≡ true
  require-eq-ok true error returned = refl
  require-eq-ok false error returned = cc

  pub or_raise-eq-ok {ℓ} :
      {A : Type ℓ} (o : Option A) (error : GovernanceError) {value : A}
      → or_raise store o error ≡ ok value
      → o ≡ some value
  or_raise-eq-ok none error returned = cc
  or_raise-eq-ok (some a) error returned = cc

  pub one_or_none-eq-none {ℓ} :
      {A : Type ℓ} (rows : List A) → one_or_none store rows ≡ ok none → rows ≡ []
  one_or_none-eq-none [] returned = refl
  one_or_none-eq-none (row ∷ []) returned = cc
  one_or_none-eq-none (row ∷ other ∷ rows) returned = cc

  of_tenant-eq-ok :
      (actor : ActorContext) (error : GovernanceError) (o : Option Resource) {resource : Resource}
      → of_tenant store actor error o ≡ ok resource
      → (o ≡ some resource) × (nat_beq resource.tenant_id actor.tenant_id ≡ true)
  of_tenant-eq-ok actor error none returned = cc
  of_tenant-eq-ok actor error (some r) returned = ground (arith, returned)

  pub find_resource-eq-ok :
      (actor : ActorContext) (error : GovernanceError) (id : ℕ) {resource : Resource}
      → find_resource store actor error id ≡ ok resource
      → (get id store.resources ≡ some resource)
        × (nat_beq resource.tenant_id actor.tenant_id ≡ true)
  find_resource-eq-ok actor error id returned =
      of_tenant-eq-ok actor error (get id store.resources) returned

  pub insert_row-eq-ok {ℓ} :
      {Row : Type ℓ} (id : ℕ) (row : Row) (rows : Dict Row) {result : Dict Row}
      → insert_row store id row rows ≡ ok result
      → (contains id (keys rows) ≡ false) × (put id row rows ≡ result)
  insert_row-eq-ok id row rows returned = ground (arith, returned)

  pub insert_edge-eq-ok :
      (edge : ResourceEdge) {result : List ResourceEdge}
      → insert_edge store edge ≡ ok result
      → (any (same_edge edge) store.edges ≡ false) × (store.edges ++ edge ∷ [] ≡ result)
  insert_edge-eq-ok edge returned = ground (arith, returned)

  placed_or_raise-eq-ok :
      (parent : Resource) (placement : Placement) {resource : Resource}
      → placed_or_raise store parent placement ≡ ok resource
      → (placement ≡ valid) × (parent ≡ resource)
  placed_or_raise-eq-ok parent valid returned = (refl, cc)
  placed_or_raise-eq-ok parent unknown_outside_project returned = cc
  placed_or_raise-eq-ok parent parent_given returned = cc
  placed_or_raise-eq-ok parent (must_be_under name) returned = cc

  pub validate_place-eq-ok :
      (resource_type : String) (parent_id : ℕ) {parent : Resource}
      → validate_place store resource_type parent_id ≡ ok parent
      → (get parent_id store.resources ≡ some parent)
        × (validate_placement resource_type (some parent.resource_type) ≡ valid)
  validate_place-eq-ok resource_type parent_id returned =
      let (found, e, rest) =
        >>=-eq-ok (or_raise store (get parent_id store.resources) parent_not_found)
          (λ p. placed_or_raise store p (validate_placement resource_type (some p.resource_type)))
          returned in
      let (is_valid, same) = placed_or_raise-eq-ok found _ rest in
      (
        or_raise-eq-ok (get parent_id store.resources) parent_not_found e ∙ ap some same,
        subst (λ (p : Resource). validate_placement resource_type (some p.resource_type) ≡ valid)
            same is_valid,
      )

-- A request that an answer found: it is of the tenant and pending, and the actor is its party.
pub record IsAnswerable (store : Store) (actor : ActorContext) (party : TransferRequest → ℕ)
    (request_id : ℕ) (t : TransferRequest) : Type 0 where
  pub found : get request_id store.transfers ≡ some t
  pub same_tenant : nat_beq t.tenant_id actor.tenant_id ≡ true
  pub is_party : nat_beq (party t) actor.id ≡ true
  pub is_pending : (t.status == "pending") ≡ true

request_of_tenant-eq-ok :
    (store : Store) (actor : ActorContext) (o : Option TransferRequest) {t : TransferRequest}
    → request_of_tenant store actor o ≡ ok t
    → (o ≡ some t) × (nat_beq t.tenant_id actor.tenant_id ≡ true)
request_of_tenant-eq-ok store actor none returned = cc
request_of_tenant-eq-ok store actor (some r) returned = ground (arith, returned)

pub pending_request-eq-ok :
    (store : Store) (actor : ActorContext) (party : TransferRequest → ℕ) (error : GovernanceError)
    (request_id : ℕ) {t : TransferRequest}
    → pending_request store actor party error request_id ≡ ok t
    → IsAnswerable store actor party request_id t
unfolding pending_request
pending_request-eq-ok store actor party error request_id {t} returned =
    let (r, e, rest) =
      >>=-eq-ok (request_of_tenant store actor (get request_id store.transfers)) _ returned in
    let (u, e_party, rest_party) =
      >>-eq-ok (require store (nat_beq (party r) actor.id) error) _ rest in
    let (v, e_pending, last) =
      >>-eq-ok (require store (r.status == "pending") (not_pending r.status)) _ rest_party in
    let (at, tenant) = request_of_tenant-eq-ok store actor (get request_id store.transfers) e in
    let same : r ≡ t = cc in
    subst (IsAnswerable store actor party request_id) same (record {
      found = at;
      same_tenant = tenant;
      is_party = require-eq-ok store _ error e_party;
      is_pending = require-eq-ok store _ (not_pending r.status) e_pending;
    })
