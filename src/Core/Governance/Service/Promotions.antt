-- ===== src/Core/Governance/Service/Promotions.antt =====
-- What promotions, approvals and templates leave alone.
use optaic_trading.Prelude.{
  ℕ, ◌≡◌, Option, none, some, List, [], ◌∷◌, ◌++◌, ap, ◌∙◌, sym, leb, ok, refl, String, ◌==◌,
  string_eq, >>=-eq-ok, >>-eq-ok, Bool-cases, inl, inr, keep,
}
use optaic_trading.Prelude.Dict.{get}
use optaic_trading.Core.Access.{RoleBinding}
use optaic_trading.Core.ResourceTypes.{promote}
use optaic_trading.Core.Governance.{
  Resource, PromotionRequest, Store, ActorContext, resource_not_found, space_not_found, not_open,
  require, or_raise, one_or_none, find_resource, validate_action, insert_row, insert_edge, edge_by,
}
use optaic_trading.Core.Governance.Guards.{ok-injective}
use optaic_trading.Core.Governance.Copies.{copy_files}
use optaic_trading.Core.Governance.Promotion.{
  is_staging, staging_under, staging_or_new, get_or_create_staging_subspace, get_official_subspace,
  promoted_from, request_resource, scope_or, promotion_of, PromotionIds, promote_resource,
  file_promotion, promotion_of_tenant, is_submitted, none_submitted, approval_count, move_official,
  approve_counted, approval_by, approve_promotion,
}
use optaic_trading.Core.Governance.Templates.{
  RbacPolicy, Context, create_bindings, apply_rbac_template,
}
use optaic_trading.Core.Governance.Service.Frames.{
  Grows-same, IsFrame, KeepsTables, copy_files-KeepsTables, appended_since,
}

staging_or_new-KeepsTables :
    (actor : ActorContext) (space_id new_id : ℕ) (store : Store) (o : Option (ℕ × Resource))
    {id : ℕ} {after : Store}
    → staging_or_new actor space_id new_id store o ≡ ok (id, after)
    → KeepsTables store after
staging_or_new-KeepsTables actor space_id new_id store (some (i, r)) returned = (cc, cc)
staging_or_new-KeepsTables actor space_id new_id store none returned =
    let (space, _, rest) =
      >>=-eq-ok (or_raise store (get space_id store.resources) space_not_found) _ returned in
    let (resources, _, last) =
      >>=-eq-ok (insert_row store new_id (staging_under actor space_id space) store.resources) _
        rest in
    (cc, cc)

get_or_create-KeepsTables :
    (actor : ActorContext) (space_id new_id : ℕ) (store : Store) {id : ℕ} {after : Store}
    → get_or_create_staging_subspace actor space_id new_id store ≡ ok (id, after)
    → KeepsTables store after
unfolding get_or_create_staging_subspace
get_or_create-KeepsTables actor space_id new_id store returned =
    let (o, _, rest) =
      >>=-eq-ok (one_or_none store (keep (is_staging actor space_id) store.resources))
        (staging_or_new actor space_id new_id store) returned in
    staging_or_new-KeepsTables actor space_id new_id store o rest

file_promotion-KeepsTables :
    (ids : PromotionIds) (actor : ActorContext) (space_id team_id staging_id : ℕ)
    (source_type : String) (new_resource : Resource) (session : Store) {after : Store}
    → file_promotion ids actor space_id team_id staging_id source_type new_resource session
      ≡ ok after
    → KeepsTables session after
unfolding file_promotion
file_promotion-KeepsTables ids actor space_id team_id staging_id type new_resource session
      returned =
    let (official, _, rest) = >>=-eq-ok (get_official_subspace space_id session) _ returned in
    let (resources, _, rest1) =
      >>=-eq-ok
        (insert_row session ids.pr_id (request_resource actor staging_id new_resource.name)
          session.resources)
        _ rest in
    let (promotions, _, last) =
      >>=-eq-ok
        (insert_row session ids.request_id
          (promotion_of actor ids.pr_id ids.new_id staging_id (scope_or staging_id official))
          session.promotions)
        _ rest1 in
    (cc, cc)

pub promote-IsFrame :
    (ids : PromotionIds) (actor : ActorContext) (source_id space_id team_id : ℕ)
    (name : Option String) (store : Store) {after : Store}
    → promote_resource ids actor source_id space_id team_id name store ≡ ok after
    → IsFrame store after
unfolding promote_resource
promote-IsFrame ids actor source_id space_id team_id name store {after} returned =
    let (source, _, rest) =
      >>=-eq-ok (find_resource store actor resource_not_found source_id) _ returned in
    let (_, _, rest1) = >>-eq-ok (validate_action store source promote) _ rest in
    let ((staging_id, staged), e_staged, rest2) =
      >>=-eq-ok (get_or_create_staging_subspace actor space_id ids.staging_id store) _ rest1 in
    let ((ref, session), copied, rest3) =
      >>=-eq-ok (copy_files staged ids.new_ref source.artifact_ref) _ rest2 in
    let row = promoted_from actor staging_id team_id name ref source in
    let (resources, _, rest4) =
      >>=-eq-ok (insert_row session ids.new_id row session.resources) _ rest3 in
    let edge = edge_by actor ids.new_id source_id "promoted_from" in
    let (edges, inserted, last) = >>=-eq-ok (insert_edge session edge) _ rest4 in
    let first = get_or_create-KeepsTables actor space_id ids.staging_id store e_staged in
    let second = copy_files-KeepsTables staged ids.new_ref source.artifact_ref copied in
    let third =
      file_promotion-KeepsTables ids actor space_id team_id staging_id source.resource_type row
        (record session { resources = resources; edges = edges }) last in
    record {
      transfers_after = third.0 ∙ second.0 ∙ first.0;
      grows =
          appended_since store session after edge (second.0 ∙ first.0, second.1 ∙ first.1) inserted
            third.1;
    }

move_official-KeepsTables :
    (actor : ActorContext) (request_id : ℕ) (p : PromotionRequest) (store : Store)
    (o : Option Resource)
    → KeepsTables store (move_official actor request_id p store o)
move_official-KeepsTables actor request_id p store none = (refl, refl)
move_official-KeepsTables actor request_id p store (some r) = (refl, refl)

approve_counted-KeepsTables :
    (actor : ActorContext) (request_id : ℕ) (p : PromotionRequest) (count : ℕ) (store : Store)
    → KeepsTables store (approve_counted actor request_id p count store)
approve_counted-KeepsTables actor request_id p count store =
    elim (Bool-cases (leb p.required_approvals count)) [
      | inl enough ↦ simp (enough) (
          move_official-KeepsTables actor request_id p store
            (get p.moving_resource_id store.resources))
      | inr few ↦ simp (few) (refl, refl)
    ]

pub approve-IsFrame :
    (actor : ActorContext) (request_id : ℕ) (comment : Option String) (store : Store)
    {after : Store}
    → approve_promotion actor request_id comment store ≡ ok after
    → IsFrame store after
unfolding approve_promotion
approve-IsFrame actor request_id comment store {after} returned =
    let (p, _, rest) =
      >>=-eq-ok (promotion_of_tenant store actor (get request_id store.promotions)) _ returned in
    let (_, _, rest1) = >>-eq-ok (require store (p.status == "open") (not_open p.status)) _ rest in
    let (existing, _, rest2) =
      >>=-eq-ok (one_or_none store (keep (is_submitted actor p.pr_resource_id) store.approvals)) _
        rest1 in
    let (_, _, last) = >>-eq-ok (none_submitted store existing) _ rest2 in
    let is = ok-injective refl (sym last) in
    let kept =
      approve_counted-KeepsTables actor request_id p (approval_count actor p.pr_resource_id store)
        (record store {
          approvals = store.approvals ++ approval_by actor p.pr_resource_id comment ∷ [];
        }) in
    record {
      transfers_after = ap (λ (s : Store). s.transfers) is ∙ kept.0;
      grows = Grows-same store after (ap (λ (s : Store). s.edges) is ∙ kept.1);
    }

pub apply-IsFrame :
    (tenant_id resource_id : ℕ) (policy : RbacPolicy) (context : Context) (store : Store)
    {created : List RoleBinding} {after : Store}
    → apply_rbac_template tenant_id resource_id policy context store ≡ ok (created, after)
    → IsFrame store after
unfolding apply_rbac_template
apply-IsFrame tenant_id resource_id policy context store {created = _} {after} returned =
    let (made, _, last) =
      >>=-eq-ok (create_bindings store tenant_id resource_id context policy.bindings) _ returned in
    record { transfers_after = cc; grows = Grows-same store after cc }
