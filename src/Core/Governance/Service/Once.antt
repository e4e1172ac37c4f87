-- ===== src/Core/Governance/Service/Once.antt =====
-- The edge that a transfer leaves behind, and what it stops.
use optaic_trading.Prelude.{
  ℕ, ◌≡◌, Bool, true, Option, some, List, [], ◌∷◌, ◌++◌, any, String, ==_self, string_eq, ok, arith,
  refl, ap, subst, sym, ◌∙◌,
}
use optaic_trading.Prelude.Dict.{get}
use optaic_trading.Core.Governance.{
  TransferRequest, ResourceEdge, Store, ActorContext, same_edge, edge_by,
}
use optaic_trading.Core.Governance.Transfers.{accept_transfer, transfer_resource}
use optaic_trading.Core.Governance.Transfers.Effects.{accept-IsAccepted, transfer-IsDirect}
use optaic_trading.Core.Governance.Service.{Later, same, next}
use optaic_trading.Core.Governance.Service.Frames.{Grows}
use optaic_trading.Core.Governance.Service.Changes.{serve-Change, Change-Grows}

-- The resource was transferred in the tenant.
abbrev WasTransferred : ActorContext → ℕ → Store → Type 0
WasTransferred actor resource_id store =
    any (same_edge (edge_by actor resource_id resource_id "transferred_from")) store.edges ≡ true

any-last {ℓ} :
    {A : Type ℓ} (p : A → Bool) (xs : List A) (x : A) → p x ≡ true → any p (xs ++ x ∷ []) ≡ true
any-last p [] x holds = ground arith
any-last p (y ∷ xs) x holds = ground (arith, any-last p xs x holds)

same_edge_self : (e : ResourceEdge) → same_edge e e ≡ true
same_edge_self e = ground (arith, ==_self e.edge_type)

Later-Grows : {days : ℕ} {store after : Store} → Later days store after → Grows store after
Later-Grows same edge there = there
Later-Grows {days} (next {between} later now actor command e) edge there =
    subst (λ (s : Store). any (same_edge edge) s.edges ≡ true) (sym e)
      (Change-Grows (serve-Change days now actor command between) edge
        (Later-Grows later edge there))

accepted-WasTransferred :
    (now : ℕ) (actor : ActorContext) (request_id destination_id : ℕ) (message : Option String)
    (store after : Store) (t : TransferRequest)
    → get request_id store.transfers ≡ some t
    → accept_transfer now actor request_id destination_id message store ≡ ok after
    → WasTransferred actor t.resource_id after
accepted-WasTransferred now actor request_id destination_id message store after t found returned =
    let c = accept-IsAccepted now actor request_id destination_id message store returned in
    let is : c.request ≡ t = cc (sym c.is_answerable.found ∙ found) in
    let edge = edge_by actor c.request.resource_id c.request.resource_id "transferred_from" in
    subst (λ (u : TransferRequest). WasTransferred actor u.resource_id after) is
      (subst (λ (s : Store). WasTransferred actor c.request.resource_id s) (sym c.after_is)
        (any-last (same_edge edge) store.edges edge (same_edge_self edge)))

-- The test on edges reads the tenant and the resource alone.
other_actor :
    (actor other : ActorContext) (resource_id other_id : ℕ) (store : Store)
    → other.tenant_id ≡ actor.tenant_id
    → other_id ≡ resource_id
    → WasTransferred actor resource_id store
    → WasTransferred other other_id store
other_actor actor other resource_id other_id store same_tenant same_resource was =
    rw (same_tenant, same_resource) was

-- Once a recipient has accepted a request for a resource, no later request for that resource is
-- accepted in the tenant, whatever commands come in between, and the resource is not transferred
-- directly either.
pub transferred_once :
    (days now : ℕ) (actor : ActorContext) (request_id destination_id : ℕ) (message : Option String)
    (store between after : Store) (t : TransferRequest)
    → get request_id store.transfers ≡ some t
    → accept_transfer now actor request_id destination_id message store ≡ ok between
    → Later days between after
    → (later_now : ℕ) (other : ActorContext) (other_request other_destination : ℕ)
    → (other_message : Option String) (u : TransferRequest) (result : Store)
    → other.tenant_id ≡ actor.tenant_id
    → get other_request after.transfers ≡ some u
    → u.resource_id ≡ t.resource_id
    → (¬ (
        accept_transfer later_now other other_request other_destination other_message after
        ≡ ok result))
      × ((target_owner_id : ℕ)
          → ¬ (transfer_resource other t.resource_id target_owner_id after ≡ ok result))
transferred_once days now actor request_id destination_id message store between after t found
      returned later later_now other other_request other_destination other_message u result
      same_tenant other_found same_resource =
    let was : WasTransferred actor t.resource_id after =
      Later-Grows later (edge_by actor t.resource_id t.resource_id "transferred_from") (
        accepted-WasTransferred now actor request_id destination_id message store between t found
          returned) in
    (
      λ again.
          let c =
            accept-IsAccepted later_now other other_request other_destination other_message after
              again in
          let is : c.request ≡ u = cc (sym c.is_answerable.found ∙ other_found) in
          let there =
            other_actor actor other t.resource_id c.request.resource_id after same_tenant
              (ap (λ (v : TransferRequest). v.resource_id) is ∙ same_resource) was in
          ground (arith, there, c.is_first),
      λ target again.
          let c = transfer-IsDirect other t.resource_id target after again in
          let there =
            other_actor actor other t.resource_id t.resource_id after same_tenant refl was in
          ground (arith, there, c.is_first),
    )
