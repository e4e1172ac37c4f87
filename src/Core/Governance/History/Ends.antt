-- ===== src/Core/Governance/History/Ends.antt =====
-- The loop of the search ends: each edge puts at most one entry on the queue.
use optaic_trading.Prelude.{
  ℕ, zero, suc, ◌+◌, ◌≡◌, ◌≤◌, false, not, ◌||◌, some, List, [], ◌∷◌, ◌++◌, keep, contains, length,
  length-append, length-keep-le, ltb, nat_beq, arith, refl, Bool-cases, inl, inr,
}
use optaic_trading.Core.Governance.{ResourceEdge}
use optaic_trading.Core.Governance.History.{LineageEntry, unvisited, walk}

length-unvisited :
    (visited ids : List ℕ) (depth : ℕ) → length (unvisited visited depth ids) ≤ length ids
length-unvisited visited [] depth = omega arith
length-unvisited visited (v ∷ ids) depth = ground (arith, length-unvisited visited ids depth)

module _ (source : ResourceEdge → ℕ) where
  -- The edges from a resource, and those from resources that are not visited
  abbrev pub edges_from : ℕ → List ResourceEdge → ℕ
  edges_from c edges = length (keep (λ e. nat_beq (source e) c) edges)

  abbrev open_edges : List ℕ → List ResourceEdge → ℕ
  open_edges visited edges = length (keep (λ e. not (contains (source e) visited)) edges)

  open_edges-cons :
      (c : ℕ) (visited : List ℕ) (edges : List ResourceEdge)
      → contains c visited ≡ false
      → open_edges (c ∷ visited) edges + edges_from c edges ≡ open_edges visited edges
  open_edges-cons c visited [] h = omega arith
  open_edges-cons c visited (e ∷ edges) h = ground (arith, open_edges-cons c visited edges h)

  module _ (next : ℕ → List ℕ) (entries : ℕ → ℕ → List LineageEntry) (max_depth : ℕ)
      (edges : List ResourceEdge) (degree : (c : ℕ) → length (next c) ≤ edges_from c edges) where
    walk_ends :
        (fuel : ℕ) (visited : List ℕ) (queue : List (ℕ × ℕ)) (lineage : List LineageEntry)
        → length queue + open_edges visited edges ≤ fuel
        → (result : List LineageEntry) × (walk next entries max_depth fuel visited queue lineage
            ≡ some result)
    unfolding walk
    walk_ends zero visited [] lineage h = (lineage, refl)
    walk_ends (suc fuel) visited [] lineage h = (lineage, refl)
    walk_ends zero visited ((c, k) ∷ queue) lineage h = absurd (omega arith)
    walk_ends (suc fuel) visited ((c, k) ∷ queue) lineage h =
        elim (Bool-cases (contains c visited || ltb max_depth k)) [
          | inl skipped ↦ rw (skipped, walk) (walk_ends fuel visited queue lineage (omega arith))
          | inr visits ↦
              let added = unvisited (c ∷ visited) (suc k) (next c) in
              let new : contains c visited ≡ false = ground arith in
              rw (visits, walk)
                (walk_ends fuel (c ∷ visited) (queue ++ added) (lineage ++ entries c k) (
                  omega (
                    arith,
                    length-append queue added,
                    length-unvisited (c ∷ visited) (next c) (suc k),
                    degree c,
                    open_edges-cons c visited edges new,
                  )))
        ]

    pub search_ends :
        (root : ℕ)
        → (result : List LineageEntry) × (walk next entries max_depth
              (suc (length edges))
              []
              ((root, 0) ∷ [])
              []
            ≡ some result)
    search_ends root =
        walk_ends (suc (length edges)) [] ((root, 0) ∷ []) []
          (omega (arith, length-keep-le (λ e. not (contains (source e) [])) edges))
