-- ===== src/Orchestration/Lineage/Traversal/Loop.antt =====
-- The loop of the search: it ends, and what holds at its end.
use optaic_trading.Prelude.{
  ℕ, zero, suc, ◌+◌, ◌≤◌, ◌≡◌, true, false, not, ◌&&◌, ◌||◌, List, [], ◌∷◌, ◌++◌, contains,
  contains-append, contains-keep, length, length-append, length-keep-le, nat_beq, some, arith,
  Bool-cases, inl, inr, refl, subst, ◌⊎◌, ⊎_elim,
}
use optaic_trading.Orchestration.Lineage.Table.{LineageRow, tally}
use optaic_trading.Orchestration.Lineage.Traversal.{
  Reach, here, step, listed_in, unseen, search_from,
}

module _ (source : LineageRow → ℕ) where
  -- The rows whose source is not visited.
  abbrev open_rows : List ℕ → List LineageRow → ℕ
  open_rows visited = tally (λ row. not (contains (source row) visited))

  open_rows-cons :
      (c : ℕ) (visited : List ℕ) (rows : List LineageRow)
      → contains c visited ≡ false
      → open_rows (c ∷ visited) rows + tally (λ row. nat_beq (source row) c) rows
        ≡ open_rows visited rows
  open_rows-cons c visited [] h = omega arith
  open_rows-cons c visited (row ∷ rows) h = ground (arith, open_rows-cons c visited rows h)

  open_rows-le : (visited : List ℕ) (rows : List LineageRow) → open_rows visited rows ≤ length rows
  open_rows-le visited [] = omega arith
  open_rows-le visited (row ∷ rows) = ground (arith, open_rows-le visited rows)

  module _ (next : ℕ → List ℕ) (rows : List LineageRow)
      (degree : (c : ℕ) → length (next c) ≡ tally (λ row. nat_beq (source row) c) rows) where
    search_from_ends :
        (fuel : ℕ) (visited queue ordered : List ℕ)
        → length queue + open_rows visited rows ≤ fuel
        → (result : List ℕ) × (search_from next fuel visited queue ordered ≡ some result)
    unfolding search_from
    search_from_ends zero visited [] ordered h = (ordered, refl)
    search_from_ends (suc fuel) visited [] ordered h = (ordered, refl)
    search_from_ends zero visited (c ∷ queue) ordered h = absurd (omega arith)
    search_from_ends (suc fuel) visited (c ∷ queue) ordered h =
        elim (Bool-cases (contains c visited)) [
          | inl old ↦
              rw (old, search_from) (search_from_ends fuel visited queue ordered (omega arith))
          | inr new ↦
              let fresh = unseen (c ∷ visited) (next c) in
              rw (new, search_from)
                (search_from_ends fuel (c ∷ visited) (queue ++ fresh) (ordered ++ fresh) (
                  omega (
                    arith,
                    length-append queue fresh,
                    length-keep-le (λ v. not (contains v (c ∷ visited))) (next c),
                    degree c,
                    open_rows-cons c visited rows new,
                  )))
        ]

    pub search_ends :
        (root : ℕ)
        → (result : List ℕ) × (search_from next (suc (length rows)) [] (root ∷ []) [] ≡ some result)
    search_ends root =
        search_from_ends (suc (length rows)) [] (root ∷ []) [] (omega (arith, open_rows-le [] rows))

contains-fresh :
    (visited xs : List ℕ) (v : ℕ)
    → contains v (unseen visited xs) ≡ (not (contains v visited) && contains v xs)
contains-fresh visited xs v = contains-keep (λ w. not (contains w visited)) v xs

module _ (next : ℕ → List ℕ) (root : ℕ) where
  pub record Inv (visited queue ordered : List ℕ) : Type 0 where
    pub root_visited : contains root visited ≡ true
    pub listed :
        (v : ℕ)
        → contains v ordered ≡ ((contains v visited || contains v queue) && not (nat_beq v root))
    pub sound :
        (v : ℕ) → (contains v visited || contains v queue) ≡ true → Reach (listed_in next) root v
    pub closed :
        (u v : ℕ)
        → contains u visited ≡ true
        → contains v (next u) ≡ true
        → (contains v visited || contains v queue) ≡ true

  Inv-skip :
      (c : ℕ) (visited queue ordered : List ℕ)
      → contains c visited ≡ true
      → Inv visited (c ∷ queue) ordered
      → Inv visited queue ordered
  Inv-skip c visited queue ordered old inv = record {
    root_visited = inv.root_visited;
    listed = λ v. ground (arith, inv.listed v);
    sound = λ v h. inv.sound v (ground arith);
    closed = λ u v h e. ground (arith, inv.closed u v h e);
  }

  Inv-visit :
      (c : ℕ) (visited queue ordered : List ℕ)
      → contains c visited ≡ false
      → Inv visited (c ∷ queue) ordered
      → (let fresh = unseen (c ∷ visited) (next c) in
          Inv (c ∷ visited) (queue ++ fresh) (ordered ++ fresh))
  Inv-visit c visited queue ordered new inv = record {
    root_visited = ground (arith, inv.root_visited);
    listed = λ v. ground (
      arith,
      inv.root_visited,
      inv.listed v,
      contains-fresh (c ∷ visited) (next c) v,
      contains-append v ordered (unseen (c ∷ visited) (next c)),
      contains-append v queue (unseen (c ∷ visited) (next c)),
    );
    sound = λ v h.
        let old_or_new : ((contains v visited || contains v (c ∷ queue)) ≡ true)
            ⊎ (contains v (next c) ≡ true) =
          ground (
            arith,
            contains-fresh (c ∷ visited) (next c) v,
            contains-append v queue (unseen (c ∷ visited) (next c)),
          ) in
        ⊎_elim (inv.sound v) (step (inv.sound c (ground arith))) old_or_new;
    closed = λ u v h e. ground (
      arith,
      inv.closed u v,
      contains-fresh (c ∷ visited) (next c) v,
      contains-append v queue (unseen (c ∷ visited) (next c)),
    );
  }

  pub Inv-start : Inv (root ∷ []) (unseen (root ∷ []) (next root)) (unseen (root ∷ []) (next root))
  Inv-start = record {
    root_visited = ground arith;
    listed = λ v. ground (arith, contains-fresh (root ∷ []) (next root) v);
    sound = λ v h.
        let root_or_new : (v ≡ root) ⊎ (contains v (next root) ≡ true) =
          ground (arith, contains-fresh (root ∷ []) (next root) v) in
        ⊎_elim (λ e. rw e here) (step here) root_or_new;
    closed = λ u v h e. ground (arith, contains-fresh (root ∷ []) (next root) v);
  }

  pub search_from-Inv :
      (fuel : ℕ) (visited queue ordered result : List ℕ)
      → Inv visited queue ordered
      → search_from next fuel visited queue ordered ≡ some result
      → (final : List ℕ) × Inv final [] result
  unfolding search_from
  search_from-Inv zero visited [] ordered result inv e =
      let same : ordered ≡ result = cc in (visited, subst (Inv visited []) same inv)
  search_from-Inv (suc fuel) visited [] ordered result inv e =
      let same : ordered ≡ result = cc in (visited, subst (Inv visited []) same inv)
  search_from-Inv zero visited (c ∷ queue) ordered result inv e = cc
  search_from-Inv (suc fuel) visited (c ∷ queue) ordered result inv e =
      elim (Bool-cases (contains c visited)) [
        | inl old ↦
            search_from-Inv fuel visited queue ordered result
              (Inv-skip c visited queue ordered old inv) (rw (old, search_from) at e)
        | inr new ↦
            let fresh = unseen (c ∷ visited) (next c) in
            search_from-Inv fuel (c ∷ visited) (queue ++ fresh) (ordered ++ fresh) result
              (Inv-visit c visited queue ordered new inv) (rw (new, search_from) at e)
      ]
