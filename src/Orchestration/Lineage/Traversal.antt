-- ===== src/Orchestration/Lineage/Traversal.antt =====
-- `resolve_upstream_dependencies` and `resolve_downstream_dependencies` of
-- libs/orchestration/lineage.py: the breadth-first search, its queries, and the relation of
-- reachability that it is about.
mod Loop
pub mod Correct
pub mod Tests
use optaic_trading.Prelude.{
  ℕ, zero, suc, ◌≡◌, Bool, true, false, not, List, [], ◌∷◌, ◌++◌, keep, contains, length, Option,
  none, some, if◌then◌else◌,
}
use optaic_trading.Database.{Arrangement}
use optaic_trading.Orchestration.Lineage.Table.{LineageRow, select_upstream, select_downstream}

-- What a chain of direct dependencies leads to.
pub data Reach (link : ℕ → ℕ → Bool) (root : ℕ) : ℕ → Type 0 where
  here : Reach link root root
  step : {u v : ℕ} → Reach link root u → link u v ≡ true → Reach link root v

-- The links that the queries of a search follow.
abbrev pub listed_in : (ℕ → List ℕ) → ℕ → ℕ → Bool
listed_in next u v = contains v (next u)

-- The inner `for`: the neighbours that are not visited, in the order of the query's result.
abbrev pub unseen : List ℕ → List ℕ → List ℕ
unseen visited = keep (λ v. not (contains v visited))

-- The `while queue` loop; `none` means that the fuel ran out.
pub search_from : (ℕ → List ℕ) → ℕ → List ℕ → List ℕ → List ℕ → Option (List ℕ)
search_from next fuel visited [] ordered = some ordered
search_from next zero visited (current ∷ queue) ordered = none
search_from next (suc fuel) visited (current ∷ queue) ordered = elim (contains current visited) [
  | true ↦ search_from next fuel visited queue ordered
  | false ↦
      let fresh = unseen (current ∷ visited) (next current) in
      search_from next fuel (current ∷ visited) (queue ++ fresh) (ordered ++ fresh)
]

module _ (db : Arrangement LineageRow) (rows : List LineageRow) where
  -- A round takes one entry off the queue, and each row puts at most one entry on it.
  unfoldable pub resolve_upstream_dependencies : ℕ → Bool → Option (List ℕ)
  unfolding search_from
  resolve_upstream_dependencies resource_id recursive =
      if recursive
      then search_from (select_upstream db rows) (suc (length rows)) [] (resource_id ∷ []) []
      else some (select_upstream db rows resource_id)

  unfoldable pub resolve_downstream_dependencies : ℕ → Bool → Option (List ℕ)
  unfolding search_from
  resolve_downstream_dependencies resource_id recursive =
      if recursive
      then search_from (select_downstream db rows) (suc (length rows)) [] (resource_id ∷ []) []
      else some (select_downstream db rows resource_id)
