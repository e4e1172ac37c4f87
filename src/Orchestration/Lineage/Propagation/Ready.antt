-- ===== src/Orchestration/Lineage/Propagation/Ready.antt =====
-- The answer of an update is that of the check that follows it.
use optaic_trading.Prelude.{
  ℕ, ◌≡◌, false, Option, none, some, List, [], ◌∷◌, all, String, string_eq, nat_beq, arith, refl,
  sym, ap, ◌∙◌,
}
use optaic_trading.Prelude.Dict.{Dict, get, put, get-put}
use optaic_trading.Orchestration.Lineage.Propagation.{
  Instance, Instances, or_empty, is_ready_in, update_upstream_status, with_status, update_found,
  all_ready_in, check_found, check_all_upstreams_ready,
}

pub all_ready_in-all :
    (statuses : Dict String) (ids : List ℕ)
    → all_ready_in statuses ids ≡ all (is_ready_in statuses) ids
all_ready_in-all statuses [] = refl
all_ready_in-all statuses (uid ∷ uids) = refl

update_found-check :
    (id upstream_id : ℕ) (status : String) (before : Instances) (known : Option Instance)
    → get id before ≡ known
    → ((update_found id upstream_id status before known).0
        ≡ check_all_upstreams_ready id (update_found id upstream_id status before known).1)
      × ((j : ℕ)
          → nat_beq j id ≡ false
          → get j (update_found id upstream_id status before known).1 ≡ get j before)
unfolding update_found check_all_upstreams_ready check_found
update_found-check id upstream_id status before none e = (sym (ap check_found e), λ j other. refl)
update_found-check id upstream_id status before (some found) e =
    let updated = with_status upstream_id status found in
    let now_stored : get id (put id updated before) ≡ some updated =
      ground (arith, get-put {V = Instance} id id updated before) in
    (
      sym (
          ap check_found now_stored
          ∙ all_ready_in-all (put upstream_id status (or_empty found.upstream_status))
              (or_empty found.upstream_resource_ids)),
      λ j other. ground (arith, get-put {V = Instance} j id updated before),
    )

-- The answer of an update of an upstream status is the answer of a check of all upstream resources
-- after it; and it changes no other instance.
pub update_upstream-check :
    (id upstream_id : ℕ) (status : String) (before : Instances)
    → ((update_upstream_status id upstream_id status before).0
        ≡ check_all_upstreams_ready id (update_upstream_status id upstream_id status before).1)
      × ((j : ℕ)
          → nat_beq j id ≡ false
          → get j (update_upstream_status id upstream_id status before).1 ≡ get j before)
unfolding update_upstream_status
update_upstream-check id upstream_id status before =
    update_found-check id upstream_id status before (get id before) refl
