-- ===== src/Orchestration/Lineage/Table.antt =====
-- The table dataset_lineage (libs/db/models/quant.py) and the queries over it in
-- libs/orchestration/lineage.py. An identifier is a number: the code compares UUIDs and uses
-- them as keys, and no more.
use optaic_trading.Prelude.{
  ℕ, ◌+◌, ◌≡◌, Bool, List, [], ◌∷◌, map, keep, String, ◌==◌, nat_beq, nat_eq, contains, any, length,
  ◌&&◌, if◌then◌else◌, arith, ◌∙◌, refl,
}
use optaic_trading.Database.{Arrangement, any-perm, length-perm, contains-map}

-- `DatasetLineage`
pub record LineageRow : Type 0 where
  pub tenant_id : ℕ
  pub upstream_resource_id : ℕ
  pub downstream_resource_id : ℕ
  pub edge_kind : String

-- Resource `u` is a direct dependency of resource `d`.
abbrev pub joins : ℕ → ℕ → LineageRow → Bool
joins u d row = nat_beq u row.upstream_resource_id && nat_beq d row.downstream_resource_id

abbrev pub depends : List LineageRow → ℕ → ℕ → Bool
depends rows d u = any (joins u d) rows

module _ (db : Arrangement LineageRow) (rows : List LineageRow) where
  -- select(upstream_resource_id).where(downstream_resource_id == id)
  unfoldable pub select_upstream : ℕ → List ℕ
  select_upstream id =
      map (λ row. row.upstream_resource_id)
        (db.arrange (keep (λ row. row.downstream_resource_id == id) rows))

  -- select(downstream_resource_id).where(upstream_resource_id == id)
  unfoldable pub select_downstream : ℕ → List ℕ
  select_downstream id =
      map (λ row. row.downstream_resource_id)
        (db.arrange (keep (λ row. row.upstream_resource_id == id) rows))

-- The number of rows that satisfy a test.
abbrev pub tally : (LineageRow → Bool) → List LineageRow → ℕ
tally p [] = 0
tally p (row ∷ rows) = (if p row then 1 else 0) + tally p rows

length-keep : (p : LineageRow → Bool) (rows : List LineageRow) → length (keep p rows) ≡ tally p rows
length-keep p [] = refl
length-keep p (row ∷ rows) = ground (arith, length-keep p rows)

length-map : (f : LineageRow → ℕ) (rows : List LineageRow) → length (map f rows) ≡ length rows
length-map f [] = refl
length-map f (row ∷ rows) = ground (arith, length-map f rows)

any-keep-downstream :
    (u d : ℕ) (rows : List LineageRow)
    → any
        (λ row. nat_beq u row.upstream_resource_id)
        (keep (λ row. row.downstream_resource_id == d) rows)
      ≡ any (joins u d) rows
any-keep-downstream u d [] = refl
any-keep-downstream u d (row ∷ rows) = ground (arith, any-keep-downstream u d rows)

any-keep-upstream :
    (u d : ℕ) (rows : List LineageRow)
    → any
        (λ row. nat_beq d row.downstream_resource_id)
        (keep (λ row. row.upstream_resource_id == u) rows)
      ≡ any (joins u d) rows
any-keep-upstream u d [] = refl
any-keep-upstream u d (row ∷ rows) = ground (arith, any-keep-upstream u d rows)

module _ (db : Arrangement LineageRow) (rows : List LineageRow) where
  pub contains-select_upstream :
      (u d : ℕ) → contains u (select_upstream db rows d) ≡ depends rows d u
  unfolding select_upstream
  contains-select_upstream u d =
      contains-map u (λ row. row.upstream_resource_id) _
      ∙ any-perm _ (db.arrange_perm _)
      ∙ any-keep-downstream u d rows

  pub contains-select_downstream :
      (u d : ℕ) → contains d (select_downstream db rows u) ≡ depends rows d u
  unfolding select_downstream
  contains-select_downstream u d =
      contains-map d (λ row. row.downstream_resource_id) _
      ∙ any-perm _ (db.arrange_perm _)
      ∙ any-keep-upstream u d rows

  pub length-select_upstream :
      (d : ℕ)
      → length (select_upstream db rows d) ≡ tally (λ row. row.downstream_resource_id == d) rows
  unfolding select_upstream
  length-select_upstream d = length-map _ _ ∙ length-perm (db.arrange_perm _) ∙ length-keep _ rows

  pub length-select_downstream :
      (u : ℕ)
      → length (select_downstream db rows u) ≡ tally (λ row. row.upstream_resource_id == u) rows
  unfolding select_downstream
  length-select_downstream u = length-map _ _ ∙ length-perm (db.arrange_perm _) ∙ length-keep _ rows
