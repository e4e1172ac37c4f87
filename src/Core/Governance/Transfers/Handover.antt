-- ===== src/Core/Governance/Transfers/Handover.antt =====
-- Who holds which role after a transfer, and who owns the resource.
use optaic_trading.Prelude.{
  ℕ, ◌≡◌, Bool, false, not, ◌&&◌, ◌||◌, some, List, any, String, ◌==◌, string_eq, nat_beq,
}
use optaic_trading.Prelude.Dict.{get}
use optaic_trading.Core.Access.{RoleBinding}
use optaic_trading.Core.Governance.{
  Resource, TransferRequest, Store, ActorContext, is_active_binding,
}
use optaic_trading.Core.Governance.Transfers.{moved_to}

-- The principal has the role at the resource.
abbrev pub holds : ℕ → ℕ → ℕ → String → List RoleBinding → Bool
holds tenant_id principal_id resource_id role_name =
    any (is_active_binding tenant_id principal_id resource_id role_name)

-- The four parts of what a test for active bindings asks are equal.
abbrev pub same_role : (tn p r tn' p' r' : ℕ) (role role' : String) → Bool
same_role tn p r tn' p' r' role role' =
    nat_beq tn tn' && nat_beq p p' && nat_beq r r' && (role == role')

-- What a recipient's acceptance means for the resource, for its request and for every role.
pub record IsHandedOver (actor : ActorContext) (request_id destination_id : ℕ)
    (before after : Store) : Type 0 where
  pub request : TransferRequest
  pub request_found : get request_id before.transfers ≡ some request
  pub resource : Resource
  pub resource_found : get request.resource_id before.resources ≡ some resource
  pub destination : Resource
  pub destination_found : get destination_id before.resources ≡ some destination
  pub moved :
      get request.resource_id after.resources
      ≡ some (moved_to actor destination_id destination resource)
  pub others_stay :
      (id : ℕ)
      → nat_beq id request.resource_id ≡ false
      → get id after.resources ≡ get id before.resources
  pub roles :
      (tn p r : ℕ) (role : String)
      → holds tn p r role after.bindings ≡ (
          (holds tn p r role before.bindings
            && not (
                same_role tn p r actor.tenant_id resource.owner_principal_id request.resource_id
                  role "owner"))
          || same_role actor.tenant_id actor.id request.resource_id tn p r "owner" role
          || same_role actor.tenant_id resource.owner_principal_id request.resource_id tn p r
              "viewer" role)
