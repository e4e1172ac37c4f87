-- ===== src/Orchestration/Lineage/Schedule/Correct.antt =====
-- `get_execution_order` raises no KeyError and ends; its batches are a schedule of the root and
-- what it depends on; and its ValueError is raised for knots alone.
use optaic_trading.Prelude.{
  ok, err, ℕ, ◌≡◌, ◌↔◌, ◌⊎◌, inl, inr, true, List, [], ◌∷◌, ◌++◌, contains, contains-append, concat,
  nat_beq, length, some, IsDistinct, arith, sym, ◌∙◌, ap, Bool-cases,
}
use optaic_trading.Prelude.Dict.{keys}
use native.Mathlib.Nat.{le_refl}
use optaic_trading.Database.{Arrangement}
use optaic_trading.Orchestration.Lineage.Table.{LineageRow, depends}
use optaic_trading.Orchestration.Lineage.Traversal.{
  Reach, here, step, resolve_upstream_dependencies,
}
use optaic_trading.Orchestration.Lineage.Traversal.Correct.{
  upstream_link, ListsReachable, resolve_upstream-reachable,
}
use optaic_trading.Orchestration.Lineage.Schedule.{
  cycle_detected, execution_order, build_dependencies, order_found, get_execution_order,
}
use optaic_trading.Orchestration.Lineage.Schedule.Layers.{layers}
use optaic_trading.Orchestration.Lineage.Schedule.Steps.{execution_order-layers}
use optaic_trading.Orchestration.Lineage.Schedule.Valid.{
  IsStaged, Knot, Within, link, layers_cases, layers-Valid, no-Knot,
}
use optaic_trading.Orchestration.Lineage.Schedule.Graph.{
  deps_of, Dict-table, contains-keys-dependencies, keys-dependencies-IsDistinct, deps-IsDistinct,
  deps-depends,
}

module _ (db : Arrangement LineageRow) (rows : List LineageRow) (root : ℕ) where
  -- The resources of the schedule.
  abbrev Needed : ℕ → Type 0
  Needed v = Reach (upstream_link rows) root v

  module _ (found : List ℕ) (lists : ListsReachable (upstream_link rows) root found) where
    abbrev resources : List ℕ
    resources = found ++ root ∷ []

    abbrev order : List ℕ
    order = keys (build_dependencies db rows resources)

    abbrev deps : ℕ → List ℕ
    deps = deps_of (build_dependencies db rows resources)

    contains-order : (v : ℕ) → (contains v order ≡ true) ↔ Needed v
    contains-order v = (
      λ m.
          let either : (contains v found ≡ true) ⊎ (v ≡ root) = ground (
            arith,
            contains-keys-dependencies db rows resources v,
            contains-append v found (root ∷ []),
          ) in
          elim either [ inl among ↦ ((lists v).0 among).0 | inr same ↦ rw same here ],
      λ r. elim (Bool-cases (nat_beq v root)) [
        | inl same ↦ ground (
          arith,
          contains-keys-dependencies db rows resources v,
          contains-append v found (root ∷ []),
        )
        | inr other ↦
            let among : contains v found ≡ true = (lists v).1 (r, λ e. ground arith) in
            ground (
              arith,
              contains-keys-dependencies db rows resources v,
              contains-append v found (root ∷ []),
            )
      ],
    )

    link-depends : (k d : ℕ) → contains k order ≡ true → link deps k d ≡ depends rows k d
    link-depends k d m =
        ground (
          arith,
          deps-depends db rows resources k d,
          contains-keys-dependencies db rows resources k,
        )

    link→depends : (k d : ℕ) → link deps k d ≡ true → depends rows k d ≡ true
    link→depends k d l = ground (arith, deps-depends db rows resources k d)

    order_closed :
        (k d : ℕ) → contains k order ≡ true → link deps k d ≡ true → contains d order ≡ true
    order_closed k d m l = (contains-order d).1 (step ((contains-order k).0 m) (link→depends k d l))

    computes :
        resolve_upstream_dependencies db rows root true ≡ some found
        → get_execution_order db rows root ≡ layers deps (length order) order
    unfolding get_execution_order order_found
    computes e =
        ap (order_found db rows root) e
        ∙ ap execution_order (
            Dict-table (build_dependencies db rows resources)
              (keys-dependencies-IsDistinct db rows resources))
        ∙ execution_order-layers deps order (keys-dependencies-IsDistinct db rows resources)
            (λ k m. deps-IsDistinct db rows resources k) order_closed

    rows-IsStaged :
        (seen : List ℕ) (batches : List (List ℕ))
        → ((k : ℕ) → contains k (concat batches) ≡ true → contains k order ≡ true)
        → IsStaged (link deps) seen batches
        → IsStaged (depends rows) seen batches
    rows-IsStaged seen [] among h = tt
    rows-IsStaged seen (batch ∷ batches) among h = (
      λ r d m l. h.0 r d m (
          link-depends r d (among r (ground (arith, contains-append r batch (concat batches))))
          ∙ l),
      rows-IsStaged (seen ++ batch) batches
          (λ k m. among k (ground (arith, contains-append k batch (concat batches)))) h.1,
    )

    Knot-rows :
        (knot : List ℕ) → Within knot order → Knot (link deps) knot → Knot (depends rows) knot
    Knot-rows knot inside tied =
        (tied.0, λ k m. let (d, l, among) = tied.1 k m in (d, link→depends k d l, among))

    Knot-deps :
        (knot : List ℕ) → Within knot order → Knot (depends rows) knot → Knot (link deps) knot
    Knot-deps knot inside tied = (
      tied.0,
      λ k m. let (d, l, among) = tied.1 k m in (d, link-depends k d (inside k m) ∙ l, among),
    )

-- The batches are a schedule: each needed resource stands in them, once, in a batch behind those
-- of the resources that it depends on.
pub record IsSchedule (rows : List LineageRow) (root : ℕ) (batches : List (List ℕ)) : Type 0 where
  pub complete : (v : ℕ) → (contains v (concat batches) ≡ true) ↔ Reach (upstream_link rows) root v
  pub once : IsDistinct (concat batches)
  pub staged : IsStaged (depends rows) [] batches

-- Needed resources that wait for one another.
pub record Deadlock (rows : List LineageRow) (root : ℕ) : Type 0 where
  pub knot : List ℕ
  pub needed : (v : ℕ) → contains v knot ≡ true → Reach (upstream_link rows) root v
  pub tied : Knot (depends rows) knot

module _ (db : Arrangement LineageRow) (rows : List LineageRow) (root : ℕ) where
  -- Whatever the table holds, the execution order is returned or the cycle error is raised: no
  -- KeyError, no negative degree, and the loops end.
  pub get_execution_order_total :
      ((batches : List (List ℕ)) × (get_execution_order db rows root ≡ ok batches))
      ⊎ (get_execution_order db rows root ≡ err cycle_detected)
  get_execution_order_total =
      let (found, e, lists) = resolve_upstream-reachable db rows root in
      let same = computes db rows root found lists e in
      elim (layers_cases (deps db rows root found lists) _ (order db rows root found lists)
        (le_refl _)) [
          | inl (batches, done) ↦ inl (batches, same ∙ done)
          | inr (knot, failed, inside, tied) ↦ inr (same ∙ failed)
        ]

  -- The batches that are returned hold each resource that the root depends on, and the root, once,
  -- and every resource in a batch behind the batches of all that it depends on.
  pub get_execution_order-IsSchedule :
      (batches : List (List ℕ))
      → get_execution_order db rows root ≡ ok batches
      → IsSchedule rows root batches
  get_execution_order-IsSchedule batches h =
      let (found, e, lists) = resolve_upstream-reachable db rows root in
      let same = computes db rows root found lists e in
      let valid =
        layers-Valid (deps db rows root found lists) _ [] (order db rows root found lists) batches
          (keys-dependencies-IsDistinct db rows (found ++ root ∷ []))
          (λ k d m l. ground (arith, order_closed db rows root found lists k d m l))
          (sym same ∙ h) in
      record {
        complete = λ v.
            let (listed, reached) = contains-order db rows root found lists v in
            (λ m. listed (sym (valid.each v) ∙ m), λ r. valid.each v ∙ reached r);
        once = valid.once;
        staged =
            rows-IsStaged db rows root found lists [] batches (λ k m. sym (valid.each k) ∙ m)
              valid.staged;
      }

  -- The cycle error is raised exactly where some of the needed resources wait for one another.
  pub get_execution_order-cycle :
      (get_execution_order db rows root ≡ err cycle_detected) ↔ Deadlock rows root
  get_execution_order-cycle =
      let (found, e, lists) = resolve_upstream-reachable db rows root in
      let same = computes db rows root found lists e in
      let all = order db rows root found lists in
      let cases = layers_cases (deps db rows root found lists) (length all) all (le_refl _) in
      (
        λ raised. elim cases [
          | inl (batches, done) ↦ cc (same ∙ done)
          | inr (knot, failed, inside, tied) ↦ record {
            knot = knot;
            needed = λ v m. (contains-order db rows root found lists v).0 (inside v m);
            tied = Knot-rows db rows root found lists knot inside tied;
          }
        ],
        λ stuck.
            let inside = λ (v : ℕ) (m : contains v stuck.knot ≡ true).
              (contains-order db rows root found lists v).1 (stuck.needed v m) in
            elim cases [
              | inl (batches, done) ↦ absurd (
                  no-Knot (deps db rows root found lists) (length all) all batches stuck.knot done
                    inside (Knot-deps db rows root found lists stuck.knot inside stuck.tied))
              | inr (knot, failed, _, _) ↦ same ∙ failed
            ],
      )
