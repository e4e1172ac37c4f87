-- ===== src/Orchestration/Observers/Ready.antt =====
-- Which instances the observer updates, and which it returns as ready.
use optaic_trading.Prelude.{
  ℕ, ◌≡◌, Bool, ◌&&◌, ◌||◌, Option, none, some, List, [], ◌∷◌, contains, string_eq, nat_beq,
  nat_beq_iff, if◌then◌else◌, arith, refl, ap, subst, sym, ◌∙◌, Bool-cases, Option-cases, inl, inr,
}
use optaic_trading.Prelude.Dict.{get, put}
use optaic_trading.Database.{Arrangement}
use optaic_trading.Orchestration.Lineage.Table.{
  LineageRow, depends, select_downstream, contains-select_downstream,
}
use optaic_trading.Orchestration.Lineage.Propagation.{
  Instance, Instances, or_empty, with_status, update_found, update_upstream_status,
  check_all_upstreams_ready, check_found,
}
use optaic_trading.Orchestration.Lineage.Propagation.Ready.{all_ready_in-all}
use optaic_trading.Orchestration.Observers.{add_if, notify, on_upstream_completed}
use optaic_trading.Orchestration.Observers.Updates.{
  updated, expected, is_ready_after, contains-add_if, expected-cons, expected-absent,
  is_ready_after-put,
}

module _ (u : ℕ) where
  notify_absent :
      (id : ℕ) (ids : List ℕ) (instances : Instances) (ready : List ℕ)
      → get id instances ≡ none
      → notify u (id ∷ ids) instances ready ≡ notify u ids instances ready
  unfolding notify
  notify_absent id ids instances ready absent = rw (absent, notify) refl

  notify_found :
      (id : ℕ) (ids : List ℕ) (found : Instance) (instances : Instances) (ready : List ℕ)
      → get id instances ≡ some found
      → notify u (id ∷ ids) instances ready
        ≡ notify u ids
            (put id (with_status u "ready" found) instances)
            (add_if (is_ready_after u (some found)) id ready)
  unfolding notify update_upstream_status update_found
  notify_found id ids found instances ready here =
      let told : update_upstream_status id u "ready" instances
          ≡ (is_ready_after u (some found), put id (with_status u "ready" found) instances) =
        ap (update_found id u "ready" instances) here in
      rw (here, notify) (ap (λ (r : Bool × Instances). notify u ids r.1 (add_if r.0 id ready)) told)

  -- What the loop leaves for an instance, and whether it returns it.
  abbrev Told : List ℕ → Instances → List ℕ → List ℕ × Instances → Type 0
  Told ids instances ready (ready_ids, after) =
      ((j : ℕ) → get j after ≡ expected u j ids instances)
      × ((v : ℕ)
          → contains v ready_ids
            ≡ (contains v ready || (contains v ids && is_ready_after u (get v instances))))

  notify-Told :
      (ids : List ℕ) (instances : Instances) (ready : List ℕ)
      → Told ids instances ready (notify u ids instances ready)
  unfolding notify
  notify-Told [] instances ready = (λ j. refl, λ v. ground arith)
  notify-Told (id ∷ ids) instances ready = elim (Option-cases (get id instances)) [
    | inl absent ↦
        let (gets, tells) = notify-Told ids instances ready in
        subst (Told (id ∷ ids) instances ready) (sym (notify_absent id ids instances ready absent))
          (
            λ j. gets j ∙ expected-absent u j id ids instances absent,
            λ v. tells v ∙ elim (Bool-cases (nat_beq v id)) [
              | inl same ↦
                  let at : get v instances ≡ none =
                    ap (λ (i : ℕ). get i instances) ((nat_beq_iff v id).0 same) ∙ absent in
                  simp (same, at) (ground arith)
              | inr other ↦ simp (other) refl
            ],
          )
    | inr (found, here) ↦
        let next = put id (with_status u "ready" found) instances in
        let answer = is_ready_after u (some found) in
        let (gets, tells) = notify-Told ids next (add_if answer id ready) in
        subst (Told (id ∷ ids) instances ready)
          (sym (notify_found id ids found instances ready here))
          (
            λ j. gets j ∙ expected-cons u j id ids found instances here,
            λ v.
                let kept = is_ready_after-put u v id found instances here in
                let added = contains-add_if u v id answer ready in
                tells v ∙ elim (Bool-cases (nat_beq v id)) [
                  | inl same ↦
                      let at : get v instances ≡ some found =
                        ap (λ (i : ℕ). get i instances) ((nat_beq_iff v id).0 same) ∙ here in
                      let is : is_ready_after u (get v instances) ≡ answer =
                        ap (is_ready_after u) at in
                      ground (arith, kept, added, same, is)
                  | inr other ↦ ground (arith, kept, added, other)
                ],
          )
  ]

  check_found-updated : (o : Option Instance) → check_found (updated u o) ≡ is_ready_after u o
  unfolding check_found
  check_found-updated none = refl
  check_found-updated (some found) =
      all_ready_in-all (put u "ready" (or_empty found.upstream_status))
        (or_empty found.upstream_resource_ids)

-- What the completion of an upstream resource does to the instances, and whom it reports.
pub record IsNotified (rows : List LineageRow) (upstream_id : ℕ) (before : Instances)
    (told : List ℕ × Instances) : Type 0 where
  pub instances_after :
      (j : ℕ)
      → get j told.1
        ≡ (if depends rows j upstream_id then updated upstream_id (get j before) else get j before)
  pub reported :
      (v : ℕ)
      → contains v told.0 ≡ (depends rows v upstream_id && check_all_upstreams_ready v told.1)

-- When an upstream resource completes, exactly the instances that depend on it are given its
-- status "ready", and the observer returns exactly those of them whose upstream resources are
-- all ready after that, however often the lineage table lists them.
pub on_upstream_completed-IsNotified :
    (db : Arrangement LineageRow) (rows : List LineageRow) (upstream_id : ℕ) (before : Instances)
    → IsNotified rows upstream_id before (on_upstream_completed db rows upstream_id before)
unfolding on_upstream_completed check_all_upstreams_ready
on_upstream_completed-IsNotified db rows upstream_id before =
    let ids = select_downstream db rows upstream_id in
    let (gets, tells) = notify-Told upstream_id ids before [] in
    let after : (j : ℕ)
        → get j (notify upstream_id ids before []).1 ≡ (
            if depends rows j upstream_id
            then updated upstream_id (get j before)
            else get j before) =
      λ j.
        gets j
        ∙ ap (λ (b : Bool). if b then updated upstream_id (get j before) else get j before)
            (contains-select_downstream db rows upstream_id j) in
    record {
      instances_after = after;
      reported = λ v.
          let linked = contains-select_downstream db rows upstream_id v in
          tells v ∙ elim (Bool-cases (depends rows v upstream_id)) [
            | inl depending ↦
                let at : get v (notify upstream_id ids before []).1
                    ≡ updated upstream_id (get v before) =
                  after v ∙ simp (depending) refl in
                let checked = ap check_found at ∙ check_found-updated upstream_id (get v before) in
                ground (arith, linked, depending, checked)
            | inr free ↦ ground (arith, linked, free)
          ];
    }
