-- ===== src/Orchestration/Lineage/Traversal/Correct.antt =====
-- The searches for dependencies return, and list what is reachable.
use optaic_trading.Prelude.{
  ℕ, suc, ◌≡◌, ◌↔◌, ◌≢◌, Bool, true, List, [], ◌∷◌, contains, length, some, arith, subst, fun_ext,
}
use optaic_trading.Database.{Arrangement}
use optaic_trading.Orchestration.Lineage.Table.{
  LineageRow, depends, select_upstream, select_downstream, contains-select_upstream,
  contains-select_downstream, length-select_upstream, length-select_downstream,
}
use optaic_trading.Orchestration.Lineage.Traversal.{
  Reach, here, step, listed_in, unseen, search_from, resolve_upstream_dependencies,
  resolve_downstream_dependencies,
}
use optaic_trading.Orchestration.Lineage.Traversal.Loop.{
  Inv, Inv-start, search_from-Inv, search_ends,
}

-- A list of the resources that can be reached from the root, without the root.
abbrev pub ListsReachable : (ℕ → ℕ → Bool) → ℕ → List ℕ → Type 0
ListsReachable link root found =
    (v : ℕ) → (contains v found ≡ true) ↔ (Reach link root v × (v ≢ root))

module _ (next : ℕ → List ℕ) (root : ℕ) where
  reached_visited :
      (visited found : List ℕ)
      → Inv next root visited [] found
      → {v : ℕ} → Reach (listed_in next) root v
      → contains v visited ≡ true
  reached_visited visited found inv here = inv.root_visited
  reached_visited visited found inv (step {u} {v} r e) =
      ground (arith, inv.closed u v (reached_visited visited found inv r) e)

  pub search_lists :
      (fuel : ℕ) (found : List ℕ)
      → search_from next (suc fuel) [] (root ∷ []) [] ≡ some found
      → ListsReachable (listed_in next) root found
  unfolding search_from
  search_lists fuel found e v =
      let (visited, inv) =
        search_from-Inv next root fuel (root ∷ []) (unseen (root ∷ []) (next root))
          (unseen (root ∷ []) (next root)) found (Inv-start next root) e in
      (
        λ m. (inv.sound v (ground (arith, inv.listed v)), ground (arith, inv.listed v)),
        λ (r, other). ground (arith, inv.listed v, reached_visited visited found inv r),
      )

-- The links of the table: from a resource to what it depends on, and to what depends on it.
abbrev pub upstream_link : List LineageRow → ℕ → ℕ → Bool
upstream_link rows d u = depends rows d u

abbrev pub downstream_link : List LineageRow → ℕ → ℕ → Bool
downstream_link rows u d = depends rows d u

module _ (db : Arrangement LineageRow) (rows : List LineageRow) (root : ℕ) where
  listed_upstream : listed_in (select_upstream db rows) ≡ upstream_link rows
  listed_upstream = fun_ext (λ d. fun_ext (λ u. contains-select_upstream db rows u d))

  listed_downstream : listed_in (select_downstream db rows) ≡ downstream_link rows
  listed_downstream = fun_ext (λ u. fun_ext (λ d. contains-select_downstream db rows u d))

  -- The recursive search for upstream dependencies returns for every table, cycles included, and
  -- its list holds exactly the resources that a chain of dependencies leads to, without the root.
  pub resolve_upstream-reachable :
      (found : List ℕ) × (resolve_upstream_dependencies db rows root true ≡ some found)
      × ListsReachable (upstream_link rows) root found
  unfolding resolve_upstream_dependencies
  resolve_upstream-reachable =
      let (found, e) =
        search_ends (λ row. row.downstream_resource_id) (select_upstream db rows) rows
          (length-select_upstream db rows) root in
      (
        found,
        e,
        subst (λ link. ListsReachable link root found) listed_upstream
            (search_lists (select_upstream db rows) root (length rows) found e),
      )

  -- The recursive search for downstream dependents returns for every table, cycles included, and
  -- its list holds exactly the resources that depend on the root through a chain of dependencies,
  -- without the root.
  pub resolve_downstream-reachable :
      (found : List ℕ) × (resolve_downstream_dependencies db rows root true ≡ some found)
      × ListsReachable (downstream_link rows) root found
  unfolding resolve_downstream_dependencies
  resolve_downstream-reachable =
      let (found, e) =
        search_ends (λ row. row.upstream_resource_id) (select_downstream db rows) rows
          (length-select_downstream db rows) root in
      (
        found,
        e,
        subst (λ link. ListsReachable link root found) listed_downstream
            (search_lists (select_downstream db rows) root (length rows) found e),
      )
