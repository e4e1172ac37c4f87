-- ===== src/Core/Governance/Service/Changes.antt =====
-- What a request does to the transfer requests and the edges of the store, whichever it is.
use optaic_trading.Prelude.{
  ℕ, ◌≡◌, Option, String, ok, err, ap, refl, sym, >>=-eq-ok, subst, [], ◌∷◌,
}
use optaic_trading.Core.Governance.{Store, ActorContext, Call, handled, edge_by}
use optaic_trading.Core.Governance.Guards.{ok-injective}
use optaic_trading.Core.Governance.Transfers.{rejected_at, cancelled_at}
use optaic_trading.Core.Governance.Transfers.Effects.{
  IsCreated, create-IsCreated, IsAccepted, accept-IsAccepted, IsAnswered, reject-IsAnswered,
  cancel-IsAnswered, IsDirect, transfer-IsDirect,
}
use optaic_trading.Core.Governance.Templates.{apply_rbac_template}
use optaic_trading.Core.Governance.Service.{
  Command, copies, branches, requests_transfer, accepts, rejects, cancels, transfers_now, promotes,
  approves, merges, applies_template, handle, serve,
}
use optaic_trading.Core.Governance.Service.Frames.{
  IsFrame, Grows, Grows-same, Grows-append, copy-IsFrame, branch-IsFrame, merge-IsFrame,
}
use optaic_trading.Core.Governance.Service.Promotions.{
  promote-IsFrame, approve-IsFrame, apply-IsFrame,
}

pub data Change (days now : ℕ) (actor : ActorContext) (before after : Store) : Type 0 where
  framed : IsFrame before after → Change days now actor before after
  asked :
      {new_id resource_id recipient_id : ℕ} {message : Option String}
      → IsCreated now days new_id actor resource_id recipient_id message before after
      → Change days now actor before after
  taken :
      {request_id destination_id : ℕ} {message : Option String}
      → IsAccepted now actor request_id destination_id message before after
      → Change days now actor before after
  rejected :
      {request_id : ℕ} {message : Option String}
      → IsAnswered actor (λ t. t.recipient_id) request_id (rejected_at now message) before after
      → Change days now actor before after
  cancelled :
      {request_id : ℕ}
      → IsAnswered actor (λ t. t.sender_id) request_id (cancelled_at now) before after
      → Change days now actor before after
  direct :
      {resource_id target_owner_id : ℕ}
      → IsDirect actor resource_id target_owner_id before after
      → Change days now actor before after

handle-Change :
    (days now : ℕ) (actor : ActorContext) (command : Command) (store after : Store)
    → handle days now actor command store ≡ ok after
    → Change days now actor store after
unfolding handle
handle-Change days now actor (copies new_id source_id parent_id name) store after e =
    framed (copy-IsFrame new_id actor source_id parent_id name store e)
handle-Change days now actor (branches new_id new_ref source_id parent_id name) store after e =
    framed (branch-IsFrame new_id new_ref actor source_id parent_id name store e)
handle-Change days now actor (requests_transfer new_id resource_id recipient_id message) store after
      e =
    asked (create-IsCreated now days new_id actor resource_id recipient_id message store e)
handle-Change days now actor (accepts request_id destination_id message) store after e =
    taken (accept-IsAccepted now actor request_id destination_id message store e)
handle-Change days now actor (rejects request_id message) store after e =
    rejected (reject-IsAnswered now actor request_id message store e)
handle-Change days now actor (cancels request_id) store after e =
    cancelled (cancel-IsAnswered now actor request_id store e)
handle-Change days now actor (transfers_now resource_id target_owner_id) store after e =
    direct (transfer-IsDirect actor resource_id target_owner_id store e)
handle-Change days now actor (promotes ids source_id space_id team_id name) store after e =
    framed (promote-IsFrame ids actor source_id space_id team_id name store e)
handle-Change days now actor (approves request_id comment) store after e =
    framed (approve-IsFrame actor request_id comment store e)
handle-Change days now actor (merges source_id target_id) store after e =
    framed (merge-IsFrame actor source_id target_id store e)
handle-Change days now actor (applies_template resource_id policy context) store after e =
    let ((made, session), applied, last) =
      >>=-eq-ok (apply_rbac_template actor.tenant_id resource_id policy context store)
        (λ (made, session). ok session) e in
    subst (Change days now actor store) (sym (ok-injective refl (sym last)))
      (framed (apply-IsFrame actor.tenant_id resource_id policy context store applied))

handled-Change :
    (days now : ℕ) (actor : ActorContext) (before : Store) (call : Call Store)
    → ((after : Store) → call ≡ ok after → Change days now actor before after)
    → Change days now actor before (handled before call)
unfolding handled
handled-Change days now actor before (ok after) returned = returned after refl
handled-Change days now actor before (err (error, session)) returned =
    framed (record { transfers_after = refl; grows = λ edge there. there })

pub serve-Change :
    (days now : ℕ) (actor : ActorContext) (command : Command) (store : Store)
    → Change days now actor store (serve days now actor command store)
unfolding serve
serve-Change days now actor command store =
    handled-Change days now actor store (handle days now actor command store)
      (handle-Change days now actor command store)

-- No request removes an edge.
pub Change-Grows :
    {days now : ℕ} {actor : ActorContext} {before after : Store}
    → Change days now actor before after
    → Grows before after
Change-Grows (framed c) = c.grows
Change-Grows {before} {after} (asked c) = Grows-same before after c.edges_after
Change-Grows {actor} {before} {after} (taken c) =
    Grows-append before after
      (edge_by actor c.request.resource_id c.request.resource_id "transferred_from" ∷ [])
      (sym (ap (λ (s : Store). s.edges) c.after_is))
Change-Grows {before} {after} (rejected c) = Grows-same before after c.edges_after
Change-Grows {before} {after} (cancelled c) = Grows-same before after c.edges_after
Change-Grows {before} {after} (direct c) = Grows-append before after _ c.edges_after
