-- ===== src/Core/Governance/Tests.antt =====
-- A small platform, its governance, and the theorems about it there.
use optaic_trading.Prelude.{
  ℕ, ◌≡◌, false, Option, none, some, [], ◌∷◌, String, string_eq, ok, err, refl, arith,
}
use optaic_trading.Prelude.Dict.{get}
use optaic_trading.Core.ResourceTypes.{
  registry, get_info, is_action_allowed, validate_placement, place_info,
}
use optaic_trading.Core.Access.{RoleBinding}
use optaic_trading.Core.Governance.{
  Resource, PromotionRequest, Store, ActorContext, pending_exists, expired, Call, copy_artifact,
  handled,
}
use optaic_trading.Core.Governance.Transfers.{
  expiry, requested, create_transfer_request, pending_request, set_status, accept_transfer,
  transfer_resource,
}
use optaic_trading.Core.Governance.Copies.{branch_resource, merge_resource}
use optaic_trading.Core.Governance.Promotion.{
  get_or_create_staging_subspace, get_official_subspace, promotion_of, PromotionIds, file_promotion,
  promote_resource, approval_count, approve_promotion,
}
use optaic_trading.Core.Governance.Promotion.Approvals.{IsApproved, approve_promotion-IsApproved}
use optaic_trading.Core.Governance.Service.{
  branches, requests_transfer, promotes, merges, handle, serve, same, next,
}
use optaic_trading.Core.Governance.Service.Protocol.{Protocol, deal, serve-Protocol}
use optaic_trading.Core.Governance.Service.Pending.{AtMostOnePending, Later-AtMostOnePending}
use optaic_trading.Core.Governance.Service.Once.{transferred_once}

abbrev make_resource : String → Option ℕ → ℕ → Option ℕ → Resource
make_resource resource_type parent_id owner artifact = record {
  tenant_id = 9;
  resource_type = resource_type;
  parent_id = parent_id;
  owner_principal_id = owner;
  space_kind = some "team";
  subspace_kind = some "custom";
  name = "r";
  status = "active";
  artifact_ref = artifact;
}

abbrev alice : ActorContext
alice = record { id = 1; tenant_id = 9 }

abbrev bob : ActorContext
bob = record { id = 2; tenant_id = 9 }

abbrev role : ℕ → ℕ → String → RoleBinding
role principal_id resource_id name = record {
  tenant_id = 9;
  principal_id = principal_id;
  scope_resource_id = resource_id;
  role_name = name;
  revoked = false;
}

-- Alice owns dataset 30 in project 10; project 20 is Bob's.
abbrev platform : Store
platform = record {
  resources =
      (10, make_resource "Project" none 1 none)
      ∷ (20, make_resource "Project" none 2 none)
      ∷ (30, make_resource "DatasetInstance" (some 10) 1 (some 5))
      ∷ (40, make_resource "Space" none 3 none)
      ∷ [];
  edges = [];
  bindings = role 1 30 "owner" ∷ [];
  transfers = [];
  promotions = [];
  approvals = [];
  activities = [];
  artifacts = (5, "rows") ∷ [];
}

-- What a call leaves, for one that returns
abbrev session_of : Call Store → Store
session_of (ok store) = store
session_of (err (error, store)) = store

-- Alice asks Bob to take the dataset.
abbrev asked_store : Store
asked_store = serve 7 100 alice (requests_transfer 70 30 2 none) platform

-- A second request while the first is pending
asked_twice :
    create_transfer_request 101 7 71 alice 30 3 none asked_store ≡ err (pending_exists, asked_store)
unfolding create_transfer_request serve handled handle is_action_allowed registry get_info
asked_twice = refl

-- Bob takes it.
abbrev taken_store : Store
taken_store = session_of (accept_transfer 200 bob 70 20 none asked_store)

taken_returned : accept_transfer 200 bob 70 20 none asked_store ≡ ok taken_store
unfolding serve handled handle create_transfer_request accept_transfer pending_request
    is_action_allowed registry get_info validate_placement place_info
taken_returned = refl

taken_owner :
    get 30 taken_store.resources
    ≡ some
        (record (make_resource "DatasetInstance" (some 20) 2 (some 5)) { owner_principal_id = 2 })
unfolding serve handled handle create_transfer_request accept_transfer pending_request
    is_action_allowed registry get_info validate_placement place_info
taken_owner = refl

-- After a week the request cannot be accepted.
late :
    accept_transfer 700000 bob 70 20 none asked_store
    ≡ err (
      expired,
      record asked_store {
        transfers = (70, set_status "expired" (requested (expiry 100 7) alice 30 2 none)) ∷ [];
      },
    )
unfolding serve handled handle create_transfer_request accept_transfer pending_request
    is_action_allowed registry get_info
late = refl

serve-Protocol_example : Protocol 7 100 1 (deal 70 platform) (deal 70 asked_store)
serve-Protocol_example = serve-Protocol 7 100 alice (requests_transfer 70 30 2 none) platform 70

platform-AtMostOnePending : AtMostOnePending platform
platform-AtMostOnePending r = omega arith

Later-AtMostOnePending_example : AtMostOnePending asked_store
Later-AtMostOnePending_example =
    Later-AtMostOnePending 7 platform asked_store platform-AtMostOnePending
      (next same 100 alice (requests_transfer 70 30 2 none) refl)

-- Bob gives it back: Alice can never accept it.
abbrev returning_store : Store
returning_store = serve 7 300 bob (requests_transfer 71 30 1 none) taken_store

asked_request : get 70 asked_store.transfers ≡ some (requested (expiry 100 7) alice 30 2 none)
unfolding serve handled handle create_transfer_request is_action_allowed registry get_info
asked_request = refl

returning_request : get 71 returning_store.transfers ≡ some (requested (expiry 300 7) bob 30 1 none)
unfolding serve handled handle create_transfer_request accept_transfer pending_request
    is_action_allowed registry get_info validate_placement place_info
returning_request = refl

transferred_once_example :
    (¬ (accept_transfer 400 alice 71 10 none returning_store ≡ ok platform))
    × ((target_owner_id : ℕ)
        → ¬ (transfer_resource alice 30 target_owner_id returning_store ≡ ok platform))
transferred_once_example =
    transferred_once 7 200 bob 70 20 none asked_store taken_store returning_store
      (requested (expiry 100 7) alice 30 2 none) asked_request taken_returned
      (next same 300 bob (requests_transfer 71 30 1 none) refl) 400 alice 71 10 none
      (requested (expiry 300 7) bob 30 1 none) platform refl returning_request refl

-- Alice promotes the dataset to the team 4 of space 40, and Bob approves.
abbrev ids : PromotionIds
ids = record { staging_id = 41; new_ref = 6; new_id = 42; pr_id = 43; request_id = 44 }

abbrev promoted_store : Store
promoted_store = serve 7 500 alice (promotes ids 30 40 4 none) platform

abbrev promotion : PromotionRequest
promotion = promotion_of alice 43 42 41 41

promoted_request : get 44 promoted_store.promotions ≡ some promotion
unfolding serve handled handle promote_resource get_or_create_staging_subspace copy_artifact
    file_promotion get_official_subspace is_action_allowed registry get_info
promoted_request = refl

abbrev approved_store : Store
approved_store = session_of (approve_promotion bob 44 none promoted_store)

approved_returned : approve_promotion bob 44 none promoted_store ≡ ok approved_store
unfolding serve handled handle promote_resource get_or_create_staging_subspace copy_artifact
    file_promotion get_official_subspace is_action_allowed registry get_info approve_promotion
    approval_count
approved_returned = refl

approve_promotion-IsApproved_example : IsApproved bob 44 promotion promoted_store approved_store
approve_promotion-IsApproved_example =
    approve_promotion-IsApproved bob 44 none promotion promoted_store approved_store
      promoted_request approved_returned

-- Bob branches the dataset and merges the branch back.
abbrev branched_store : Store
branched_store = serve 7 600 bob (branches 50 8 30 20 none) platform

merged_artifact :
    get 30 (serve 7 601 bob (merges 50 30) branched_store).resources
    ≡ some (make_resource "DatasetInstance" (some 10) 1 (some 8))
unfolding serve handled handle branch_resource merge_resource copy_artifact is_action_allowed
    registry get_info validate_placement place_info
merged_artifact = refl

merged_again :
    serve 7 602 bob (merges 50 30) (serve 7 601 bob (merges 50 30) branched_store)
    ≡ serve 7 601 bob (merges 50 30) branched_store
unfolding serve handled handle branch_resource merge_resource copy_artifact is_action_allowed
    registry get_info validate_placement place_info
merged_again = refl
