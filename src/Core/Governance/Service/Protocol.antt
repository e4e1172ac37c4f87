-- ===== src/Core/Governance/Service/Protocol.antt =====
-- The transfer workflow as a protocol on single requests, and that the service implements it.
use optaic_trading.Prelude.{
  ℕ, ◌≡◌, true, false, Option, none, some, String, ◌==◌, string_eq, nat_beq, if◌then◌else◌, ap,
  arith, refl, sym, subst, ◌∙◌, nat_beq_iff, Bool-cases, inl, inr,
}
use optaic_trading.Prelude.Dict.{
  Dict, get, put, adjust, get-put, get-adjust_ne, get-adjust_self, get-none_of_not_key,
}
use optaic_trading.Core.Governance.{TransferRequest, Store, ActorContext}
use optaic_trading.Core.Governance.Transfers.{
  expiry, requested, is_expired, accepted_at, rejected_at, cancelled_at,
}
use optaic_trading.Core.Governance.Service.{Command, serve}
use optaic_trading.Core.Governance.Service.Changes.{
  Change, framed, asked, taken, rejected, cancelled, direct, serve-Change,
}

pub data Phase : Type 0 where
  pending accepted_phase rejected_phase cancelled_phase other_phase : Phase

abbrev pub phase_of : String → Phase
phase_of status =
    if status == "pending"
    then pending
    else if status == "accepted"
    then accepted_phase
    else if status == "rejected"
    then rejected_phase
    else if status == "cancelled"
    then cancelled_phase
    else other_phase

-- What the parties see of a request
pub record Deal : Type 0 where
  pub resource_id : ℕ
  pub sender_id : ℕ
  pub recipient_id : ℕ
  pub expires_at : Option ℕ
  pub phase : Phase

abbrev pub deal_of : TransferRequest → Deal
deal_of t = record {
  resource_id = t.resource_id;
  sender_id = t.sender_id;
  recipient_id = t.recipient_id;
  expires_at = t.expires_at;
  phase = phase_of t.status;
}

abbrev pub view : Option TransferRequest → Option Deal
view none = none
view (some t) = some (deal_of t)

-- The request `id`, as the parties see it
abbrev pub deal : ℕ → Store → Option Deal
deal id store = view (get id store.transfers)

-- What may happen to one request while an actor's command is served: nothing; the actor opens it, as
-- its sender; or ends it, while it is pending: the recipient accepts it in time or rejects it, or
-- the sender cancels it.
pub data Protocol (days now actor_id : ℕ) : Option Deal → Option Deal → Type 0 where
  unchanged :
      {before after : Option Deal} → after ≡ before → Protocol days now actor_id before after
  opens :
      {d : Deal}
      → d.sender_id ≡ actor_id
      → d.phase ≡ pending
      → d.expires_at ≡ some (expiry now days)
      → Protocol days now actor_id none (some d)
  accepts :
      {d e : Deal}
      → d.recipient_id ≡ actor_id
      → d.phase ≡ pending
      → is_expired now d.expires_at ≡ false
      → e ≡ record d { phase = accepted_phase }
      → Protocol days now actor_id (some d) (some e)
  rejects :
      {d e : Deal}
      → d.recipient_id ≡ actor_id
      → d.phase ≡ pending
      → e ≡ record d { phase = rejected_phase }
      → Protocol days now actor_id (some d) (some e)
  cancels :
      {d e : Deal}
      → d.sender_id ≡ actor_id
      → d.phase ≡ pending
      → e ≡ record d { phase = cancelled_phase }
      → Protocol days now actor_id (some d) (some e)

module _ (days now actor_id : ℕ) where
  Allowed : Option TransferRequest → Option TransferRequest → Type 0
  Allowed before after = Protocol days now actor_id (view before) (view after)

  -- An entry that is changed by a rule of the protocol, and the others
  adjust-Allowed :
      (id request_id : ℕ) (change : TransferRequest → TransferRequest) (t : TransferRequest)
      (transfers : Dict TransferRequest)
      → get request_id transfers ≡ some t
      → Allowed (some t) (some (change t))
      → Allowed (get id transfers) (get id (adjust request_id change transfers))
  unfolding Allowed
  adjust-Allowed id request_id change t transfers found step =
      elim (Bool-cases (nat_beq id request_id)) [
        | inl here ↦
            let same : id ≡ request_id = (nat_beq_iff id request_id).0 here in
            subst
              (λ (i : ℕ). Allowed (get i transfers) (get i (adjust request_id change transfers)))
              (sym same)
              (subst
                (λ (o : Option TransferRequest).
                  Allowed o (get request_id (adjust request_id change transfers)))
                (sym found)
                (subst (λ (o : Option TransferRequest). Allowed (some t) o)
                  (sym (get-adjust_self request_id change t transfers found)) step))
        | inr there ↦ unchanged (ap view (get-adjust_ne id request_id change transfers there))
      ]

  put-Allowed :
      (id new_id : ℕ) (t : TransferRequest) (transfers : Dict TransferRequest)
      → get new_id transfers ≡ none
      → Allowed none (some t)
      → Allowed (get id transfers) (get id (put new_id t transfers))
  unfolding Allowed
  put-Allowed id new_id t transfers absent step = elim (Bool-cases (nat_beq id new_id)) [
    | inl here ↦
        let same : id ≡ new_id = (nat_beq_iff id new_id).0 here in
        let before : get id transfers ≡ none = ap (λ (i : ℕ). get i transfers) same ∙ absent in
        let after : get id (put new_id t transfers) ≡ some t =
          get-put id new_id t transfers ∙ ground (arith, here) in
        subst (λ (o : Option TransferRequest). Allowed o (get id (put new_id t transfers)))
          (sym before) (subst (λ (o : Option TransferRequest). Allowed none o) (sym after) step)
    | inr there ↦ unchanged (ap view (get-put id new_id t transfers ∙ ground (arith, there)))
  ]

is_pending-phase :
    (t : TransferRequest) → (t.status == "pending") ≡ true → phase_of t.status ≡ pending
is_pending-phase t h = simp (h) refl

Change-Protocol :
    (days now : ℕ) (actor : ActorContext) (before after : Store) (id : ℕ)
    → Change days now actor before after
    → Protocol days now actor.id (deal id before) (deal id after)
unfolding Allowed
Change-Protocol days now actor before after id (framed c) =
    unchanged (ap (λ (d : Dict TransferRequest). view (get id d)) c.transfers_after)
Change-Protocol days now actor before after id (direct c) =
    unchanged (ap (λ (d : Dict TransferRequest). view (get id d)) c.transfers_after)
Change-Protocol days now actor before after id
      (asked {new_id} {resource_id} {recipient_id} {message} c) =
    subst
      (λ (d : Dict TransferRequest). Protocol days now actor.id (deal id before) (view (get id d)))
      (sym c.transfers_after)
      (put-Allowed days now actor.id id new_id
        (requested (expiry now days) actor resource_id recipient_id message) before.transfers
        (get-none_of_not_key new_id before.transfers c.is_new) (opens refl refl refl))
Change-Protocol days now actor before after id (taken {request_id} {destination_id} {message} c) =
    subst (λ (s : Store). Protocol days now actor.id (deal id before) (deal id s)) (sym c.after_is)
      (adjust-Allowed days now actor.id id request_id (accepted_at now destination_id message)
        c.request before.transfers c.is_answerable.found
        (accepts ((nat_beq_iff _ _).0 c.is_answerable.is_party)
          (is_pending-phase c.request c.is_answerable.is_pending) c.is_in_time refl))
Change-Protocol days now actor before after id (rejected {request_id} {message} c) =
    subst
      (λ (d : Dict TransferRequest). Protocol days now actor.id (deal id before) (view (get id d)))
      (sym c.transfers_after)
      (adjust-Allowed days now actor.id id request_id (rejected_at now message) c.request
        before.transfers c.is_answerable.found
        (rejects ((nat_beq_iff _ _).0 c.is_answerable.is_party)
          (is_pending-phase c.request c.is_answerable.is_pending) refl))
Change-Protocol days now actor before after id (cancelled {request_id} c) =
    subst
      (λ (d : Dict TransferRequest). Protocol days now actor.id (deal id before) (view (get id d)))
      (sym c.transfers_after)
      (adjust-Allowed days now actor.id id request_id (cancelled_at now) c.request before.transfers
        c.is_answerable.found
        (cancels ((nat_beq_iff _ _).0 c.is_answerable.is_party)
          (is_pending-phase c.request c.is_answerable.is_pending) refl))

-- Whatever command the service is given, each transfer request follows the protocol: it appears as
-- a pending request of the actor, and leaves the pending phase once, by an acceptance or a rejection
-- of its recipient or a cancellation of its sender, an acceptance only before it expires.
pub serve-Protocol :
    (days now : ℕ) (actor : ActorContext) (command : Command) (store : Store) (id : ℕ)
    → Protocol days now actor.id (deal id store) (deal id (serve days now actor command store))
serve-Protocol days now actor command store id =
    Change-Protocol days now actor store (serve days now actor command store) id
      (serve-Change days now actor command store)
