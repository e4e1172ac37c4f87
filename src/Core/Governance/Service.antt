-- ===== src/Core/Governance/Service.antt =====
-- `GovernanceService` as a whole: its operations as commands that requests bring one after another,
-- each in a session of its own (apps/api/routers/governance.py, libs/db/session.py), and the
-- stores that they lead to.
pub mod Frames
pub mod Promotions
pub mod Changes
pub mod Protocol
pub mod Pending
pub mod Once
use optaic_trading.Prelude.{ℕ, ◌≡◌, Option, List, [], String, Result, ok, err, ◌>>=◌}
use optaic_trading.Core.Governance.{Store, ActorContext, Call, handled}
use optaic_trading.Core.Governance.Transfers.{
  create_transfer_request, accept_transfer, reject_transfer, cancel_transfer, transfer_resource,
}
use optaic_trading.Core.Governance.Copies.{copy_resource, branch_resource, merge_resource}
use optaic_trading.Core.Governance.Promotion.{PromotionIds, promote_resource, approve_promotion}
use optaic_trading.Core.Governance.Templates.{RbacPolicy, Context, apply_rbac_template}

-- The operations that write, with their arguments and the identifiers that they draw
pub data Command : Type 0 where
  copies : (new_id source_id parent_id : ℕ) → Option String → Command
  branches : (new_id new_ref source_id parent_id : ℕ) → Option String → Command
  requests_transfer : (new_id resource_id recipient_id : ℕ) → Option String → Command
  accepts : (request_id destination_id : ℕ) → Option String → Command
  rejects : (request_id : ℕ) → Option String → Command
  cancels : (request_id : ℕ) → Command
  transfers_now : (resource_id target_owner_id : ℕ) → Command
  promotes : PromotionIds → (source_id space_id team_id : ℕ) → Option String → Command
  approves : (request_id : ℕ) → Option String → Command
  merges : (source_id target_id : ℕ) → Command
  applies_template : (resource_id : ℕ) → RbacPolicy → Context → Command

unfoldable pub handle : ℕ → ℕ → ActorContext → Command → Store → Call Store
handle days now actor (copies new_id source_id parent_id name) store =
    copy_resource new_id actor source_id parent_id name store
handle days now actor (branches new_id new_ref source_id parent_id name) store =
    branch_resource new_id new_ref actor source_id parent_id name store
handle days now actor (requests_transfer new_id resource_id recipient_id message) store =
    create_transfer_request now days new_id actor resource_id recipient_id message store
handle days now actor (accepts request_id destination_id message) store =
    accept_transfer now actor request_id destination_id message store
handle days now actor (rejects request_id message) store =
    reject_transfer now actor request_id message store
handle days now actor (cancels request_id) store = cancel_transfer now actor request_id store
handle days now actor (transfers_now resource_id target_owner_id) store =
    transfer_resource actor resource_id target_owner_id store
handle days now actor (promotes ids source_id space_id team_id name) store =
    promote_resource ids actor source_id space_id team_id name store
handle days now actor (approves request_id comment) store =
    approve_promotion actor request_id comment store
handle days now actor (merges source_id target_id) store =
    merge_resource actor source_id target_id store
handle days now actor (applies_template resource_id policy context) store =
    apply_rbac_template actor.tenant_id resource_id policy context store >>= λ (created, session).
    ok session

-- The store after a request, with the days until a transfer request expires
unfoldable pub serve : ℕ → ℕ → ActorContext → Command → Store → Store
serve days now actor command store = handled store (handle days now actor command store)

-- What a store can become.
pub data Later (days : ℕ) (store : Store) : Store → Type 0 where
  same : Later days store store
  next :
      {between after : Store}
      → Later days store between
      → (now : ℕ) (actor : ActorContext) (command : Command)
      → after ≡ serve days now actor command between
      → Later days store after
