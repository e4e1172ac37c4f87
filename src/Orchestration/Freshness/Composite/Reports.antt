-- ===== src/Orchestration/Freshness/Composite/Reports.antt =====
-- What the reports on a dataset and its upstream resources say.
use optaic_trading.Prelude.{
  ℕ, ◌≡◌, ◌≢◌, ◌↔◌, inl, inr, Bool, true, false, not, some, List, [], ◌∷◌, ◌++◌, keep, contains,
  if◌then◌else◌, ok, err, >>=-eq-ok, arith, refl, subst, sym, ◌∙◌, nat_beq, Bool-cases,
}
use mathlib.Core.List.{append-nil, append_assoc}
use optaic_trading.Prelude.Dict.{Dict, get, put, get-put}
use optaic_trading.Database.{Arrangement}
use optaic_trading.Orchestration.Lineage.Table.{LineageRow}
use optaic_trading.Orchestration.Lineage.Traversal.{Reach}
use optaic_trading.Orchestration.Lineage.Traversal.Correct.{
  upstream_link, resolve_upstream-reachable,
}
use optaic_trading.Orchestration.Freshness.{DatasetStatus, ready, load_frequency, get_expected_date}
use optaic_trading.Orchestration.Freshness.Composite.{
  World, calculate_staleness, is_ready, FreshnessReport, check_each, aggregate, report_from,
  check_composite_freshness, LineageFreshnessReport, is_empty, lineage_report,
  check_upstream_freshness,
}

-- The outcome for a resource is not `ready`.
abbrev pub blocks : World → ℕ → Bool
blocks w id = elim (calculate_staleness w id) [ ok status ↦ not (is_ready status) | err _ ↦ true ]

blocks-false : (w : World) (id : ℕ) → blocks w id ≡ false → calculate_staleness w id ≡ ok ready
blocks-false w id h = ground arith

-- What the loop over the upstream resources returns, where no date overflows.
record Checked (w : World) (ids : List ℕ) (bl : List ℕ) (map' : Dict DatasetStatus) (bl' : List ℕ)
    : Type 0 where
  listed : bl' ≡ bl ++ keep (blocks w) ids
  known :
      (id : ℕ)
      → contains id ids ≡ true
      → (status : DatasetStatus) × (calculate_staleness w id ≡ ok status)
        × (get id map' ≡ some status)

get-check_each :
    (w : World) (ids : List ℕ) (m : Dict DatasetStatus) (bl : List ℕ) (m' : Dict DatasetStatus)
    (bl' : List ℕ) (j : ℕ)
    → check_each w ids m bl ≡ ok (m', bl')
    → contains j ids ≡ false
    → get j m' ≡ get j m
unfolding check_each
get-check_each w [] m bl m' bl' j h absent = ground arith
get-check_each w (id ∷ ids) m bl m' bl' j h absent =
    let (status, e, rest) = >>=-eq-ok (calculate_staleness w id) _ h in
    get-check_each w ids (put id status m) (if is_ready status then bl else bl ++ id ∷ []) m' bl' j
      rest (ground arith)
    ∙ ground (arith, get-put {V = DatasetStatus} j id status m)

blocking_cons :
    (w : World) (id : ℕ) (ids bl : List ℕ) (status : DatasetStatus)
    → calculate_staleness w id ≡ ok status
    → (if is_ready status then bl else bl ++ id ∷ []) ++ keep (blocks w) ids
      ≡ bl ++ keep (blocks w) (id ∷ ids)
blocking_cons w id ids bl status e =
    let same : blocks w id ≡ not (is_ready status) = rw (e, blocks) in
    elim (Bool-cases (is_ready status)) [
      | inl yes' ↦ rw (same, yes')
      | inr no' ↦ rw (same, no') (append_assoc bl (id ∷ []) (keep (blocks w) ids))
    ]

check_each-Checked :
    (w : World) (ids : List ℕ) (m : Dict DatasetStatus) (bl : List ℕ) (m' : Dict DatasetStatus)
    (bl' : List ℕ)
    → check_each w ids m bl ≡ ok (m', bl')
    → Checked w ids bl m' bl'
unfolding check_each
check_each-Checked w [] m bl m' bl' h = record {
  listed = ground (arith, append-nil bl);
  known = λ id absent. cc;
}
check_each-Checked w (id ∷ ids) m bl m' bl' h =
    let (status, e, rest) = >>=-eq-ok (calculate_staleness w id) _ h in
    let tail =
      check_each-Checked w ids (put id status m) (if is_ready status then bl else bl ++ id ∷ []) m'
        bl' rest in
    record {
      listed = tail.listed ∙ blocking_cons w id ids bl status e;
      known = λ j among. elim (Bool-cases (contains j ids)) [
        | inl later ↦ tail.known j later
        | inr here ↦
            let same : j ≡ id = ground arith in
            (
              status,
              rw same e,
              get-check_each w ids (put id status m) (if is_ready status then bl else bl ++ id ∷ [])
                    m' bl' j rest here
                  ∙ ground (arith, get-put {V = DatasetStatus} j id status m),
            )
      ];
    }

is_empty-keep :
    (p : ℕ → Bool) (ids : List ℕ)
    → (is_empty (keep p ids) ≡ true) ↔ ((j : ℕ) → contains j ids ≡ true → p j ≡ false)
is_empty-keep p [] = (λ _ j absent. cc, λ _. refl)
is_empty-keep p (id ∷ ids) =
    let (none_kept, all_false) = is_empty-keep p ids in
    elim (Bool-cases (p id)) [
      | inl kept ↦ (λ h. cc (rw kept at h), λ h. cc (h id (ground arith)))
      | inr dropped ↦ (
        λ h j among. elim (Bool-cases (nat_beq j id)) [
          | inl same ↦ ground arith
          | inr other ↦ none_kept (rw dropped at h) j (ground arith)
        ],
        λ h. rw dropped (all_false (λ j among. h j (ground arith))),
      )
    ]

-- The blocking list is empty exactly if all are ready.
none_block :
    (w : World) (ids : List ℕ)
    → (is_empty (keep (blocks w) ids) ≡ true)
      ↔ ((j : ℕ) → contains j ids ≡ true → calculate_staleness w j ≡ ok ready)
none_block w ids =
    let (to, from) = is_empty-keep (blocks w) ids in
    (
      λ h j among. blocks-false w j (to h j among),
      λ h. from (λ j among. let e = h j among in rw (e, blocks)),
    )

lineage_report-all_ready :
    (w : World) (id : ℕ) (ids : List ℕ) (report : LineageFreshnessReport)
    → lineage_report w id (some ids) ≡ ok report
    → (report.all_ready ≡ true)
      ↔ ((v : ℕ) → contains v ids ≡ true → calculate_staleness w v ≡ ok ready)
unfolding lineage_report
lineage_report-all_ready w id ids report h =
    let ((m, bl), checked, rest) = >>=-eq-ok (check_each w ids [] []) _ h in
    let listed : bl ≡ keep (blocks w) ids = (check_each-Checked w ids [] [] m bl checked).listed in
    let same : report.all_ready ≡ is_empty (keep (blocks w) ids) = ground arith in
    rw same (none_block w ids)

-- If the check of the upstream resources returns a report, it says that all are ready exactly if
-- every resource that a chain of dependencies leads to, but the resource itself, is ready.
pub check_upstream-all_ready :
    (db : Arrangement LineageRow) (w : World) (id : ℕ) (report : LineageFreshnessReport)
    → check_upstream_freshness db w id ≡ ok report
    → (report.all_ready ≡ true)
      ↔ ((v : ℕ) → Reach (upstream_link w.rows) id v → v ≢ id → calculate_staleness w v ≡ ok ready)
unfolding check_upstream_freshness
check_upstream-all_ready db w id report h =
    let (ids, e, lists) = resolve_upstream-reachable db w.rows id in
    let (to, from) =
      lineage_report-all_ready w id ids report
        (subst (λ o. lineage_report w id o ≡ ok report) e h) in
    (
      λ ready' v reached other. to ready' v ((lists v).1 (reached, other)),
      λ all. from (λ v among. let (reached, other) = (lists v).0 among in all v reached other),
    )

report_from-all_ready :
    (w : World) (id : ℕ) (m : Dict DatasetStatus) (bl : List ℕ) (report : FreshnessReport)
    → report_from w id (m, bl) ≡ ok report
    → (report.all_ready ≡ true) ↔ ((calculate_staleness w id ≡ ok ready) × (is_empty bl ≡ true))
unfolding report_from
report_from-all_ready w id m [] report h =
    let (own, e, rest) = >>=-eq-ok (calculate_staleness w id) _ h in
    let (expected, _, last) =
      >>=-eq-ok (get_expected_date (load_frequency w.configs id) w.today) _ rest in
    let same : report.all_ready ≡ is_ready own = ground arith in
    (λ all. (ground arith, refl), λ (own_ready, _). ground arith)
report_from-all_ready w id m (b ∷ bl) report h =
    let (status, _, rest) = >>=-eq-ok (aggregate m (b ∷ bl)) _ h in
    let same : report.all_ready ≡ false = ground arith in (λ all. cc, λ (_, empty). cc)

-- If the composite check returns a report, it says that all are ready exactly if the resource and
-- each upstream resource that was given are ready.
pub check_composite-all_ready :
    (db : Arrangement LineageRow) (w : World) (id : ℕ) (ids : List ℕ) (report : FreshnessReport)
    → check_composite_freshness db w id (some ids) ≡ ok report
    → (report.all_ready ≡ true) ↔ (
        (calculate_staleness w id ≡ ok ready)
        × ((v : ℕ) → contains v ids ≡ true → calculate_staleness w v ≡ ok ready))
unfolding check_composite_freshness
check_composite-all_ready db w id ids report h =
    let ((m, bl), checked, rest) = >>=-eq-ok (check_each w ids [] []) (report_from w id) h in
    let listed : bl ≡ keep (blocks w) ids = (check_each-Checked w ids [] [] m bl checked).listed in
    let (to, from) = report_from-all_ready w id m bl report rest in
    let (all_ok, none_left) = none_block w ids in
    (
      λ all. let (own, empty) = to all in (own, all_ok (rw listed at empty)),
      λ (own, all). from (own, subst (λ l. is_empty l ≡ true) (sym listed) (none_left all)),
    )
