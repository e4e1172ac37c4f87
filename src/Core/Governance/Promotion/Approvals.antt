-- ===== src/Core/Governance/Promotion/Approvals.antt =====
-- What an approval does to the resource that is promoted and to its request.
use optaic_trading.Prelude.{
  ℕ, ◌+◌, ◌≤◌, ◌≡◌, Bool, true, false, Option, none, some, List, [], ◌∷◌, ◌++◌, keep, length, leb,
  String, ◌==◌, string_eq, nat_beq, ok, arith, refl, ap, subst, sym, ◌∙◌, Bool-cases, inl, inr,
  ◌&&◌, >>=-eq-ok, >>-eq-ok,
}
use optaic_trading.Prelude.Dict.{get, get-adjust_ne, get-adjust_self}
use optaic_trading.Core.Governance.{
  Resource, PromotionRequest, Approval, Store, ActorContext, require, one_or_none, not_open,
  activity_by,
}
use optaic_trading.Core.Governance.Guards.{require-eq-ok, one_or_none-eq-none, ok-injective}
use optaic_trading.Core.Governance.Promotion.{
  promotion_of_tenant, is_submitted, is_approving, none_submitted, approval_count, moved_official,
  as_merged_request, move_official, approve_counted, approval_by, with_activity, approve_promotion,
}

-- The approvals of a request, and those that an actor has submitted for it
abbrev pub approvals_for : ActorContext → ℕ → Approval → Bool
approvals_for actor pr_id a =
    nat_beq a.tenant_id actor.tenant_id && nat_beq a.resource_id pr_id && (a.decision == "approved")

abbrev pub submitted_by : ActorContext → ℕ → Approval → Bool
submitted_by actor pr_id a =
    nat_beq a.tenant_id actor.tenant_id
    && nat_beq a.resource_id pr_id
    && nat_beq a.approver_id actor.id

-- What an approval by an actor means for a request that was found.
pub record IsApproved (actor : ActorContext) (request_id : ℕ) (p : PromotionRequest)
    (before after : Store) : Type 0 where
  pub was_open : (p.status == "open") ≡ true
  pub was_first : keep (submitted_by actor p.pr_resource_id) before.approvals ≡ []
  -- One more approval counts.
  pub counted :
      length (keep (approvals_for actor p.pr_resource_id) after.approvals)
      ≡ length (keep (approvals_for actor p.pr_resource_id) before.approvals) + 1
  -- With enough approvals and the resource there, it becomes official, and the request is over.
  pub moves :
      (resource : Resource)
      → get p.moving_resource_id before.resources ≡ some resource
      → p.required_approvals ≤ length (keep (approvals_for actor p.pr_resource_id) after.approvals)
      → (get p.moving_resource_id after.resources
          ≡ some (record resource {
            parent_id = some p.to_scope_id;
            subspace_kind = some "official";
            status = "active";
          }))
        × (get request_id after.promotions ≡ some (record p { status = "merged" }))
  -- With fewer, resources and requests stay as they are.
  pub waits :
      length (keep (approvals_for actor p.pr_resource_id) after.approvals) + 1
        ≤ p.required_approvals
      → (after.resources ≡ before.resources) × (after.promotions ≡ before.promotions)
  -- The other resources stay as they are.
  pub others_stay :
      (id : ℕ)
      → nat_beq id p.moving_resource_id ≡ false
      → get id after.resources ≡ get id before.resources

keep-last {ℓ} :
    {A : Type ℓ} (test : A → Bool) (xs : List A) (x : A)
    → test x ≡ true
    → length (keep test (xs ++ x ∷ [])) ≡ length (keep test xs) + 1
keep-last test [] x h = ground arith
keep-last test (y ∷ xs) x h = ground (arith, keep-last test xs x h)

module _ (actor : ActorContext) (request_id : ℕ) (p : PromotionRequest) where
  move_official-approvals :
      (store : Store) (o : Option Resource)
      → (move_official actor request_id p store o).approvals ≡ store.approvals
  move_official-approvals store none = refl
  move_official-approvals store (some r) = refl

  approve_counted-approvals :
      (count : ℕ) (store : Store)
      → (approve_counted actor request_id p count store).approvals ≡ store.approvals
  approve_counted-approvals count store = elim (Bool-cases (leb p.required_approvals count)) [
    | inl enough ↦
        simp (enough) (move_official-approvals store (get p.moving_resource_id store.resources))
    | inr few ↦ simp (few) refl
  ]

  move_official-others :
      (store : Store) (o : Option Resource) (id : ℕ)
      → nat_beq id p.moving_resource_id ≡ false
      → get id (move_official actor request_id p store o).resources ≡ get id store.resources
  move_official-others store none id other = refl
  move_official-others store (some r) id other =
      get-adjust_ne id p.moving_resource_id (moved_official p.to_scope_id) store.resources other

  approve_counted-others :
      (count : ℕ) (store : Store) (id : ℕ)
      → nat_beq id p.moving_resource_id ≡ false
      → get id (approve_counted actor request_id p count store).resources ≡ get id store.resources
  approve_counted-others count store id other = elim (Bool-cases (leb p.required_approvals count)) [
    | inl enough ↦
        simp (enough)
          (move_official-others store (get p.moving_resource_id store.resources) id other)
    | inr few ↦ simp (few) refl
  ]

  approve_counted-moves :
      (count : ℕ) (store : Store) (resource : Resource)
      → get request_id store.promotions ≡ some p
      → get p.moving_resource_id store.resources ≡ some resource
      → leb p.required_approvals count ≡ true
      → (get p.moving_resource_id (approve_counted actor request_id p count store).resources
          ≡ some (moved_official p.to_scope_id resource))
        × (get request_id (approve_counted actor request_id p count store).promotions
            ≡ some (as_merged_request p))
  approve_counted-moves count store resource found there enough =
      simp (enough, there)
        (
          get-adjust_self p.moving_resource_id (moved_official p.to_scope_id) resource
              store.resources there,
          get-adjust_self request_id as_merged_request p store.promotions found,
        )

  approve_counted-waits :
      (count : ℕ) (store : Store)
      → leb p.required_approvals count ≡ false
      → ((approve_counted actor request_id p count store).resources ≡ store.resources)
        × ((approve_counted actor request_id p count store).promotions ≡ store.promotions)
  approve_counted-waits count store few = simp (few) (refl, refl)

promotion_of_tenant-eq-ok :
    (store : Store) (actor : ActorContext) (o : Option PromotionRequest) {p : PromotionRequest}
    → promotion_of_tenant store actor o ≡ ok p
    → (o ≡ some p) × (nat_beq p.tenant_id actor.tenant_id ≡ true)
promotion_of_tenant-eq-ok store actor none returned = cc
promotion_of_tenant-eq-ok store actor (some q) returned = ground (arith, returned)

none_submitted-eq-ok :
    (store : Store) (o : Option Approval) {u : Unit} → none_submitted store o ≡ ok u → o ≡ none
none_submitted-eq-ok store none returned = refl
none_submitted-eq-ok store (some a) returned = cc

-- What `approve_promotion` returns, once its guards hold
abbrev approved : ActorContext → ℕ → Option String → PromotionRequest → Store → Store
approved actor request_id comment p store =
    with_activity (activity_by actor p.pr_resource_id "PromotionRequest" "promotion.approved") (
      approve_counted actor request_id p (approval_count actor p.pr_resource_id store)
        (record store {
          approvals = store.approvals ++ approval_by actor p.pr_resource_id comment ∷ [];
        }))

approved-counted :
    (actor : ActorContext) (request_id : ℕ) (comment : Option String) (p : PromotionRequest)
    (store : Store)
    → length (
        keep
          (is_approving actor p.pr_resource_id)
          (approved actor request_id comment p store).approvals)
      ≡ length (keep (is_approving actor p.pr_resource_id) store.approvals) + 1
approved-counted actor request_id comment p store =
    ap (λ (l : List Approval). length (keep (is_approving actor p.pr_resource_id) l))
      (approve_counted-approvals actor request_id p (approval_count actor p.pr_resource_id store)
        (record store {
          approvals = store.approvals ++ approval_by actor p.pr_resource_id comment ∷ [];
        }))
    ∙ keep-last (is_approving actor p.pr_resource_id) store.approvals
        (approval_by actor p.pr_resource_id comment) (ground arith)

approved-IsApproved :
    (actor : ActorContext) (request_id : ℕ) (comment : Option String) (p : PromotionRequest)
    (store : Store)
    → get request_id store.promotions ≡ some p
    → (p.status == "open") ≡ true
    → keep (is_submitted actor p.pr_resource_id) store.approvals ≡ []
    → IsApproved actor request_id p store (approved actor request_id comment p store)
unfolding approval_count
approved-IsApproved actor request_id comment p store found is_open first =
    let one_more = approved-counted actor request_id comment p store in
    let count = length (keep (is_approving actor p.pr_resource_id) store.approvals) + 1 in
    let session = record store {
      approvals = store.approvals ++ approval_by actor p.pr_resource_id comment ∷ [];
    } in
    record {
      was_open = is_open;
      was_first = first;
      counted = one_more;
      moves = λ resource there enough.
          approve_counted-moves actor request_id p count session resource found there
            (ground (arith, one_more, enough));
      waits = λ few.
          approve_counted-waits actor request_id p count session (ground (arith, one_more, few));
      others_stay = λ id other. approve_counted-others actor request_id p count session id other;
    }

-- An approval that is taken is the first of its actor for the request, which is open, and counts
-- once. If the request then has the approvals that it requires and the resource is there, the
-- resource is under the target scope, official and active, and the request merged; with fewer
-- approvals every resource and every request stays as it is. No other resource changes.
pub approve_promotion-IsApproved :
    (actor : ActorContext) (request_id : ℕ) (comment : Option String) (p : PromotionRequest)
    (store after : Store)
    → get request_id store.promotions ≡ some p
    → approve_promotion actor request_id comment store ≡ ok after
    → IsApproved actor request_id p store after
unfolding approve_promotion
approve_promotion-IsApproved actor request_id comment p store after found returned =
    let (q, e, rest) =
      >>=-eq-ok (promotion_of_tenant store actor (get request_id store.promotions)) _ returned in
    let (_, opened, rest1) =
      >>-eq-ok (require store (q.status == "open") (not_open q.status)) _ rest in
    let (existing, e_existing, rest2) =
      >>=-eq-ok (one_or_none store (keep (is_submitted actor q.pr_resource_id) store.approvals)) _
        rest1 in
    let (_, free, last) = >>-eq-ok (none_submitted store existing) _ rest2 in
    let (at, _) = promotion_of_tenant-eq-ok store actor (get request_id store.promotions) e in
    let same : q ≡ p = cc (sym at ∙ found) in
    let is_none = none_submitted-eq-ok store existing free in
    let q_first =
      one_or_none-eq-none store (keep (is_submitted actor q.pr_resource_id) store.approvals)
        (e_existing ∙ ap (λ (o : Option Approval). ok o) is_none) in
    let q_approved =
      approved-IsApproved actor request_id comment q store at
        (require-eq-ok store (q.status == "open") (not_open q.status) opened) q_first in
    subst (λ (r : PromotionRequest). IsApproved actor request_id r store after) same
      (subst (IsApproved actor request_id q store) (sym (ok-injective refl (sym last))) q_approved)
