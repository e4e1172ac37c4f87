-- ===== src/Core/Governance/Service/Pending.antt =====
-- How many requests of a resource are pending at a time.
use optaic_trading.Prelude.{
  ℕ, ◌+◌, ◌≤◌, ◌≡◌, Bool, false, ◌&&◌, List, [], ◌∷◌, length, contains, nat_beq, nat_beq_iff,
  if◌then◌else◌, ◌==◌, string_eq, arith, refl, ap, subst, sym, ◌∙◌, Bool-cases, inl, inr,
}
use optaic_trading.Prelude.Dict.{Dict, keys, put, adjust}
use optaic_trading.Core.Governance.{TransferRequest, Store, ActorContext}
use optaic_trading.Core.Governance.Transfers.{
  pending_of, expiry, requested, accepted_at, rejected_at, cancelled_at,
}
use optaic_trading.Core.Governance.Service.{serve, Later, same, next}
use optaic_trading.Core.Governance.Service.Changes.{
  Change, framed, asked, taken, rejected, cancelled, direct, serve-Change,
}

abbrev pub AtMostOnePending : Store → Type 0
AtMostOnePending store = (resource_id : ℕ) → length (pending_of resource_id store.transfers) ≤ 1

is_pending_for : ℕ → TransferRequest → Bool
is_pending_for resource_id t = nat_beq t.resource_id resource_id && (t.status == "pending")

pending_of-put :
    (r id : ℕ) (t : TransferRequest) (transfers : Dict TransferRequest)
    → contains id (keys transfers) ≡ false
    → length (pending_of r (put id t transfers))
      ≡ length (pending_of r transfers) + (if is_pending_for r t then 1 else 0)
unfolding is_pending_for
pending_of-put r id t [] absent = ground arith
pending_of-put r id t ((i, u) ∷ transfers) absent = ground (arith, pending_of-put r id t transfers)

pending_of-adjust :
    (r id : ℕ) (change : TransferRequest → TransferRequest) (transfers : Dict TransferRequest)
    → ((t : TransferRequest) → ((change t).status == "pending") ≡ false)
    → length (pending_of r (adjust id change transfers)) ≤ length (pending_of r transfers)
pending_of-adjust r id change [] ends = omega arith
pending_of-adjust r id change ((i, u) ∷ transfers) ends = elim (Bool-cases (nat_beq id i)) [
  | inl here ↦ rw (here) (ground (arith, ends u, pending_of-adjust r id change transfers ends))
  | inr there ↦ rw (there) (ground (arith, pending_of-adjust r id change transfers ends))
]

put-AtMostOne :
    (r id resource_id : ℕ) (t : TransferRequest) (transfers : Dict TransferRequest)
    → contains id (keys transfers) ≡ false
    → t.resource_id ≡ resource_id
    → pending_of resource_id transfers ≡ []
    → length (pending_of r transfers) ≤ 1
    → length (pending_of r (put id t transfers)) ≤ 1
unfolding is_pending_for
put-AtMostOne r id resource_id t transfers absent of free before =
    elim (Bool-cases (nat_beq resource_id r)) [
      | inl here ↦
          let none_before : length (pending_of r transfers) ≡ 0 =
            ap (λ (i : ℕ). length (pending_of i transfers))
              (sym ((nat_beq_iff resource_id r).0 here))
            ∙ ap (λ (l : List ℕ). length l) free in
          ground (arith, pending_of-put r id t transfers absent, none_before)
      | inr there ↦
          ground
            (arith, pending_of-put r id t transfers absent, ap (λ (i : ℕ). nat_beq i r) of ∙ there)
    ]

Change-AtMostOnePending :
    (days now : ℕ) (actor : ActorContext) (before after : Store)
    → Change days now actor before after
    → AtMostOnePending before
    → AtMostOnePending after
Change-AtMostOnePending days now actor before after (framed c) holds r =
    subst (λ (d : Dict TransferRequest). length (pending_of r d) ≤ 1) (sym c.transfers_after)
      (holds r)
Change-AtMostOnePending days now actor before after (direct c) holds r =
    subst (λ (d : Dict TransferRequest). length (pending_of r d) ≤ 1) (sym c.transfers_after)
      (holds r)
Change-AtMostOnePending days now actor before after
      (asked {new_id} {resource_id} {recipient_id} {message} c) holds r =
    subst (λ (d : Dict TransferRequest). length (pending_of r d) ≤ 1) (sym c.transfers_after)
      (put-AtMostOne r new_id resource_id
        (requested (expiry now days) actor resource_id recipient_id message) before.transfers
        c.is_new refl c.none_pending (holds r))
Change-AtMostOnePending days now actor before after
      (taken {request_id} {destination_id} {message} c) holds r =
    subst (λ (s : Store). length (pending_of r s.transfers) ≤ 1) (sym c.after_is)
      (omega (
        arith,
        holds r,
        pending_of-adjust r request_id (accepted_at now destination_id message) before.transfers
            (λ t. refl),
      ))
Change-AtMostOnePending days now actor before after (rejected {request_id} {message} c) holds r =
    subst (λ (d : Dict TransferRequest). length (pending_of r d) ≤ 1) (sym c.transfers_after)
      (omega (
        arith,
        holds r,
        pending_of-adjust r request_id (rejected_at now message) before.transfers (λ t. refl),
      ))
Change-AtMostOnePending days now actor before after (cancelled {request_id} c) holds r =
    subst (λ (d : Dict TransferRequest). length (pending_of r d) ≤ 1) (sym c.transfers_after)
      (omega (
        arith,
        holds r,
        pending_of-adjust r request_id (cancelled_at now) before.transfers (λ t. refl),
      ))

-- If at most one request of each resource is pending in a store, then so it is in every store that
-- any commands of any actors lead to.
pub Later-AtMostOnePending :
    (days : ℕ) (store after : Store)
    → AtMostOnePending store
    → Later days store after
    → AtMostOnePending after
Later-AtMostOnePending days store after holds same = holds
Later-AtMostOnePending days store after holds (next {between} later now actor command e) =
    subst AtMostOnePending (sym e) (
      Change-AtMostOnePending days now actor between (serve days now actor command between)
        (serve-Change days now actor command between)
        (Later-AtMostOnePending days store between holds later))
