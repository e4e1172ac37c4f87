-- ===== src/Orchestration/Observers/Batch.antt =====
-- `get_ready_to_run` of `LineageObserver` (libs/orchestration/observers.py): the datasets of a tenant
-- that can be refreshed in a batch.
use optaic_trading.Prelude.{
  ℕ, ◌≡◌, Bool, true, false, ◌&&◌, Option, none, some, List, [], ◌∷◌, keep, all, any, contains,
  String, ◌==◌, nat_beq, nat_eq, if◌then◌else◌, arith, refl, ◌∙◌,
}
use optaic_trading.Prelude.Dict.{Dict}
use optaic_trading.Database.{Arrangement, any-perm}
use optaic_trading.Orchestration.Lineage.Propagation.{
  Instance, or_empty, is_ready_in, all_ready_in, check_found,
}

-- A row of `DatasetInstance`, with the columns that tell whose it is
pub record DatasetRow : Type 0 where
  pub tenant_id : ℕ
  pub resource_id : ℕ
  pub dataset : Instance

abbrev is_not_null : Option (List ℕ) → Bool
is_not_null none = false
is_not_null (some ids) = true

-- The body of the loop: an instance with no upstream resources is left out.
abbrev upstreams_ready : Dict String → List ℕ → Bool
upstreams_ready statuses [] = false
upstreams_ready statuses (uid ∷ uids) = all (is_ready_in statuses) (uid ∷ uids)

abbrev pub runs_next : Instance → Bool
runs_next found =
    upstreams_ready (or_empty found.upstream_status) (or_empty found.upstream_resource_ids)

unfoldable pub collect_ready : List DatasetRow → List ℕ
collect_ready [] = []
collect_ready (row ∷ rows) =
    let rest = collect_ready rows in if runs_next row.dataset then row.resource_id ∷ rest else rest

abbrev is_queried : ℕ → DatasetRow → Bool
is_queried tenant_id row =
    (row.tenant_id == tenant_id) && is_not_null row.dataset.upstream_resource_ids

unfoldable pub get_ready_to_run : Arrangement DatasetRow → ℕ → List DatasetRow → List ℕ
get_ready_to_run db tenant_id rows = collect_ready (db.arrange (keep (is_queried tenant_id) rows))

abbrev has_upstreams : List ℕ → Bool
has_upstreams [] = false
has_upstreams (uid ∷ uids) = true

-- A dataset of the tenant that has an upstream resource and passes the check of the resolver
abbrev pub is_due : ℕ → DatasetRow → Bool
is_due tenant_id row =
    nat_beq row.tenant_id tenant_id
    && (has_upstreams (or_empty row.dataset.upstream_resource_ids)
        && check_found (some row.dataset))

runs_next-split :
    (statuses : Dict String) (ids : Option (List ℕ))
    → upstreams_ready statuses (or_empty ids)
      ≡ (has_upstreams (or_empty ids) && all_ready_in statuses (or_empty ids))
runs_next-split statuses none = refl
runs_next-split statuses (some []) = refl
runs_next-split statuses (some (uid ∷ uids)) = refl

null_or_empty :
    (statuses : Dict String) (ids : Option (List ℕ))
    → (is_not_null ids && upstreams_ready statuses (or_empty ids))
      ≡ upstreams_ready statuses (or_empty ids)
null_or_empty statuses none = refl
null_or_empty statuses (some ids) = refl

runs_next-is_due :
    (tenant_id : ℕ) (row : DatasetRow)
    → (is_queried tenant_id row && runs_next row.dataset) ≡ is_due tenant_id row
unfolding check_found
runs_next-is_due tenant_id row =
    let statuses = or_empty row.dataset.upstream_status in
    let here = runs_next-split statuses row.dataset.upstream_resource_ids in
    let null = null_or_empty statuses row.dataset.upstream_resource_ids in
    ground (arith, here, null)

contains-collect_ready :
    (v : ℕ) (rows : List DatasetRow)
    → contains v (collect_ready rows)
      ≡ any (λ row. nat_beq v row.resource_id && runs_next row.dataset) rows
unfolding collect_ready
contains-collect_ready v [] = refl
contains-collect_ready v (row ∷ rows) = ground (arith, contains-collect_ready v rows)

any-queried :
    (v tenant_id : ℕ) (rows : List DatasetRow)
    → any
        (λ row. nat_beq v row.resource_id && runs_next row.dataset)
        (keep (is_queried tenant_id) rows)
      ≡ any (λ row. nat_beq v row.resource_id && is_due tenant_id row) rows
any-queried v tenant_id [] = refl
any-queried v tenant_id (row ∷ rows) =
    let here = runs_next-is_due tenant_id row in
    let rest = any-queried v tenant_id rows in ground (arith, here, rest)

-- In whatever order the database returns the rows, the batch holds exactly the datasets of the
-- tenant that have an upstream resource and pass the check of the resolver.
pub get_ready_to_run-due :
    (db : Arrangement DatasetRow) (tenant_id : ℕ) (rows : List DatasetRow) (v : ℕ)
    → contains v (get_ready_to_run db tenant_id rows)
      ≡ any (λ row. nat_beq v row.resource_id && is_due tenant_id row) rows
unfolding get_ready_to_run
get_ready_to_run-due db tenant_id rows v =
    contains-collect_ready v _ ∙ any-perm _ (db.arrange_perm _) ∙ any-queried v tenant_id rows
