-- ===== src/Orchestration/Lineage/Propagation/Downstream.antt =====
-- Which datasets become stale when a resource changes.
use optaic_trading.Prelude.{
  ℕ, ◌≡◌, ◌≢◌, ◌↔◌, inl, inr, Bool, true, false, not, ◌&&◌, ◌||◌, Option, none, some, List, [], ◌∷◌,
  ◌++◌, String, ◌==◌, string_eq, if◌then◌else◌, contains, contains-append, nat_beq, arith, refl,
  sym, ap, ◌∙◌, Bool-cases, Option-cases,
}
use text.Mathlib.TextEquality.{eq_iff}
use optaic_trading.Prelude.Dict.{get, adjust}
use optaic_trading.Database.{Arrangement}
use optaic_trading.Orchestration.Lineage.Table.{LineageRow}
use optaic_trading.Orchestration.Lineage.Traversal.{Reach}
use optaic_trading.Orchestration.Lineage.Traversal.Correct.{
  downstream_link, resolve_downstream-reachable,
}
use optaic_trading.Orchestration.Lineage.Propagation.{
  Instance, Instances, staled, mark_stale, mark_found, propagate_staleness,
}

abbrev pub staled_entry : Option Instance → Option Instance
staled_entry none = none
staled_entry (some dataset) = some (staled dataset)

-- A dataset that is not yet stale.
abbrev pub is_fresh : Option Instance → Bool
is_fresh none = false
is_fresh (some dataset) = not (dataset.freshness_status == "stale")

staled_self :
    (dataset : Instance) → (dataset.freshness_status == "stale") ≡ true → staled dataset ≡ dataset
staled_self dataset h =
    ap (λ (s : String). record dataset { freshness_status = s })
      (sym ((eq_iff dataset.freshness_status "stale").0 h))

get-staled :
    (v id : ℕ) (instances : Instances)
    → get v (adjust id staled instances)
      ≡ (if nat_beq v id then staled_entry (get v instances) else get v instances)
get-staled v id [] = ground arith
get-staled v id ((i, dataset) ∷ instances) = ground (arith, get-staled v id instances)

-- What the loop does to one dataset.
get-mark_stale :
    (ids : List ℕ) (instances : Instances) (affected : List ℕ) (v : ℕ)
    → get v (mark_stale ids instances affected).0
      ≡ (if contains v ids then staled_entry (get v instances) else get v instances)
unfolding mark_stale
get-mark_stale [] instances affected v = refl
get-mark_stale (id ∷ ids) instances affected v = elim (Option-cases (get id instances)) [
  | inl missing ↦ rw (mark_stale, missing) (ground (arith, get-mark_stale ids instances affected v))
  | inr (dataset, found) ↦ elim (Bool-cases (dataset.freshness_status == "stale")) [
    | inl old ↦
        rw (mark_stale, found, old)
          (ground (arith, get-mark_stale ids instances affected v, staled_self dataset old))
    | inr fresh ↦
        rw (mark_stale, found, fresh)
          (get-mark_stale ids (adjust id staled instances) (affected ++ id ∷ []) v
            ∙ ground (arith, get-staled v id instances))
  ]
]

-- Which identifiers the loop adds to the affected ones.
contains-mark_stale :
    (ids : List ℕ) (instances : Instances) (affected : List ℕ) (v : ℕ)
    → contains v (mark_stale ids instances affected).1
      ≡ (contains v affected || (contains v ids && is_fresh (get v instances)))
unfolding mark_stale
contains-mark_stale [] instances affected v = ground arith
contains-mark_stale (id ∷ ids) instances affected v = elim (Option-cases (get id instances)) [
  | inl missing ↦
      rw (mark_stale, missing) (ground (arith, contains-mark_stale ids instances affected v))
  | inr (dataset, found) ↦ elim (Bool-cases (dataset.freshness_status == "stale")) [
    | inl old ↦
        rw (mark_stale, found, old) (ground (arith, contains-mark_stale ids instances affected v))
    | inr fresh ↦
        rw (mark_stale, found, fresh)
          (contains-mark_stale ids (adjust id staled instances) (affected ++ id ∷ []) v
            ∙ ground (arith, get-staled v id instances, contains-append v affected (id ∷ [])))
  ]
]

-- What the propagation from a resource leaves: every dataset downstream of it is stale, all else is
-- as before, and the affected identifiers are those of the datasets that became stale.
pub record IsPropagated (rows : List LineageRow) (root : ℕ) (before after : Instances)
    (affected : List ℕ) : Type 0 where
  pub below :
      (v : ℕ)
      → Reach (downstream_link rows) root v
      → v ≢ root
      → get v after ≡ staled_entry (get v before)
  pub elsewhere :
      (v : ℕ) → ¬ (Reach (downstream_link rows) root v × (v ≢ root)) → get v after ≡ get v before
  pub changed :
      (v : ℕ)
      → (contains v affected ≡ true)
        ↔ ((Reach (downstream_link rows) root v × (v ≢ root)) × (is_fresh (get v before) ≡ true))

-- The propagation of staleness ends, on any table. Every dataset that is reached downstream of the
-- resource is stale afterwards, each other one is as before, and the affected identifiers are those
-- of the datasets that became stale.
pub propagate_staleness-IsPropagated :
    (db : Arrangement LineageRow) (rows : List LineageRow) (root : ℕ) (before : Instances)
    → (after : Instances) × (affected : List ℕ) × (propagate_staleness db rows root before
        ≡ some (after, affected))
      × IsPropagated rows root before after affected
unfolding propagate_staleness mark_found
propagate_staleness-IsPropagated db rows root before =
    let (found, e, lists) = resolve_downstream-reachable db rows root in
    let marked = mark_stale found before [] in
    (
      marked.0,
      marked.1,
      ap (mark_found before) e,
      record {
        below = λ v r n.
            let among : contains v found ≡ true = (lists v).1 (r, n) in
            get-mark_stale found before [] v ∙ rw among refl;
        elsewhere = λ v other. elim (Bool-cases (contains v found)) [
          | inl among ↦ absurd (other ((lists v).0 among))
          | inr apart ↦ get-mark_stale found before [] v ∙ rw apart refl
        ];
        changed = λ v. (
          λ m.
              let both : (contains v found && is_fresh (get v before)) ≡ true =
                sym (contains-mark_stale found before [] v) ∙ m in
              ((lists v).0 (ground arith), ground arith),
          λ (r, fresh).
              let among : contains v found ≡ true = (lists v).1 r in
              contains-mark_stale found before [] v ∙ rw (among, fresh) refl,
        );
      },
    )
