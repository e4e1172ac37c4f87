-- ===== src/Orchestration/Lineage/Schedule/Graph.antt =====
-- The dictionary of dependencies holds, for each resource, the set of what its rows name.
use optaic_trading.Prelude.{
  ℕ, ◌≡◌, true, false, ◌&&◌, ◌||◌, List, [], ◌∷◌, ◌++◌, keep, contains, contains-append, nat_beq,
  any, none, some, if◌then◌else◌, IsDistinct, arith, refl, ◌∙◌, Bool-cases, inl, inr,
}
use optaic_trading.Prelude.Dict.{
  Dict, keys, get, put, adjust, get-put, contains-keys-put, keys-put-IsDistinct, keys-adjust,
  get-adjust_ne, get-adjust_self, get-some_of_key,
}
use optaic_trading.Database.{Arrangement, any-perm}
use optaic_trading.Orchestration.Lineage.Table.{LineageRow, joins, depends}
use optaic_trading.Orchestration.Lineage.Schedule.{
  add, blank_from, add_edges, select_edges, build_dependencies,
}
use optaic_trading.Orchestration.Lineage.Schedule.Counts.{table, table_cong}

-- The set stored under a key.
abbrev pub deps_of : Dict (List ℕ) → ℕ → List ℕ
deps_of d k = elim (get k d) [ none ↦ [] | some ds ↦ ds ]

contains-add : (u x : ℕ) (s : List ℕ) → contains u (add x s) ≡ (contains u s || nat_beq u x)
contains-add u x s = ground (arith, contains-append u s (x ∷ []))

snoc-IsDistinct :
    (x : ℕ) (s : List ℕ) → contains x s ≡ false → IsDistinct s → IsDistinct (s ++ x ∷ [])
snoc-IsDistinct x [] absent h = (refl, tt)
snoc-IsDistinct x (y ∷ s) absent h =
    (ground (arith, contains-append y s (x ∷ [])), snoc-IsDistinct x s (ground arith) h.1)

add-IsDistinct : (x : ℕ) (s : List ℕ) → IsDistinct s → IsDistinct (add x s)
add-IsDistinct x s h = elim (Bool-cases (contains x s)) [
  | inl present ↦ rw present h
  | inr absent ↦ rw absent (snoc-IsDistinct x s absent h)
]

-- The `for r in all_resources` comprehension.
contains-keys-blank :
    (k : ℕ) (d : Dict (List ℕ)) (rs : List ℕ)
    → contains k (keys (blank_from d rs)) ≡ (contains k (keys d) || contains k rs)
unfolding blank_from
contains-keys-blank k d [] = ground arith
contains-keys-blank k d (r ∷ rs) =
    ground (arith, contains-keys-blank k (put r [] d) rs, contains-keys-put {V = List ℕ} k r [] d)

blank-IsDistinct :
    (d : Dict (List ℕ)) (rs : List ℕ) → IsDistinct (keys d) → IsDistinct (keys (blank_from d rs))
unfolding blank_from
blank-IsDistinct d [] h = h
blank-IsDistinct d (r ∷ rs) h = blank-IsDistinct (put r [] d) rs (keys-put-IsDistinct r [] d h)

deps_of-blank :
    (k : ℕ) (d : Dict (List ℕ)) (rs : List ℕ)
    → ((j : ℕ) → deps_of d j ≡ [])
    → deps_of (blank_from d rs) k ≡ []
unfolding blank_from
deps_of-blank k d [] h = h k
deps_of-blank k d (r ∷ rs) h =
    deps_of-blank k (put r [] d) rs (λ j. ground (arith, h j, get-put {V = List ℕ} j r [] d))

-- The `for upstream, downstream in edges` loop, a round of it first.
abbrev add_edge : Dict (List ℕ) → LineageRow → Dict (List ℕ)
add_edge d row =
    if contains row.downstream_resource_id (keys d)
    then adjust row.downstream_resource_id (add row.upstream_resource_id) d
    else d

keys-add_edge : (d : Dict (List ℕ)) (row : LineageRow) → keys (add_edge d row) ≡ keys d
keys-add_edge d row = elim (Bool-cases (contains row.downstream_resource_id (keys d))) [
  | inl known ↦ rw known (keys-adjust row.downstream_resource_id (add row.upstream_resource_id) d)
  | inr unknown ↦ rw unknown
]

deps_of-adjust :
    (k j : ℕ) (f : List ℕ → List ℕ) (d : Dict (List ℕ))
    → contains j (keys d) ≡ true
    → deps_of (adjust j f d) k ≡ (if nat_beq k j then f (deps_of d k) else deps_of d k)
deps_of-adjust k j f d known = elim (Bool-cases (nat_beq k j)) [
  | inl same ↦
      let (v, found) = get-some_of_key j d known in ground (arith, get-adjust_self j f v d found)
  | inr other ↦ ground (arith, get-adjust_ne k j f d other)
]

contains-add_edge :
    (u k : ℕ) (d : Dict (List ℕ)) (row : LineageRow)
    → contains u (deps_of (add_edge d row) k)
      ≡ (contains u (deps_of d k) || (contains k (keys d) && joins u k row))
contains-add_edge u k d row = elim (Bool-cases (contains row.downstream_resource_id (keys d))) [
  | inl known ↦
      rw (known, deps_of-adjust k row.downstream_resource_id (add row.upstream_resource_id) d known)
        (ground (arith, contains-add u row.upstream_resource_id (deps_of d k)))
  | inr unknown ↦ rw unknown (ground arith)
]

add_edge-IsDistinct :
    (k : ℕ) (d : Dict (List ℕ)) (row : LineageRow)
    → IsDistinct (deps_of d k)
    → IsDistinct (deps_of (add_edge d row) k)
add_edge-IsDistinct k d row h = elim (Bool-cases (contains row.downstream_resource_id (keys d))) [
  | inl known ↦
      rw (known, deps_of-adjust k row.downstream_resource_id (add row.upstream_resource_id) d known)
        (elim (Bool-cases (nat_beq k row.downstream_resource_id)) [
          | inl same ↦ rw same (add-IsDistinct row.upstream_resource_id (deps_of d k) h)
          | inr other ↦ rw other h
        ])
  | inr unknown ↦ rw unknown h
]

keys-add_edges : (d : Dict (List ℕ)) (rows : List LineageRow) → keys (add_edges d rows) ≡ keys d
unfolding add_edges
keys-add_edges d [] = refl
keys-add_edges d (row ∷ rows) = keys-add_edges (add_edge d row) rows ∙ keys-add_edge d row

contains-add_edges :
    (u k : ℕ) (d : Dict (List ℕ)) (rows : List LineageRow)
    → contains u (deps_of (add_edges d rows) k)
      ≡ (contains u (deps_of d k) || (contains k (keys d) && any (joins u k) rows))
unfolding add_edges
contains-add_edges u k d [] = ground arith
contains-add_edges u k d (row ∷ rows) =
    contains-add_edges u k (add_edge d row) rows
    ∙ rw (contains-add_edge u k d row, keys-add_edge d row) (ground arith)

add_edges-IsDistinct :
    (k : ℕ) (d : Dict (List ℕ)) (rows : List LineageRow)
    → IsDistinct (deps_of d k)
    → IsDistinct (deps_of (add_edges d rows) k)
unfolding add_edges
add_edges-IsDistinct k d [] h = h
add_edges-IsDistinct k d (row ∷ rows) h =
    add_edges-IsDistinct k (add_edge d row) rows (add_edge-IsDistinct k d row h)

any-keep :
    (u k : ℕ) (resources : List ℕ) (rows : List LineageRow)
    → any (joins u k) (keep (λ row. contains row.downstream_resource_id resources) rows)
      ≡ (contains k resources && any (joins u k) rows)
any-keep u k resources [] = ground arith
any-keep u k resources (row ∷ rows) = ground (arith, any-keep u k resources rows)

-- A dictionary with distinct keys is the table of what it stores.
pub Dict-table : (d : Dict (List ℕ)) → IsDistinct (keys d) → d ≡ table (deps_of d) (keys d)
Dict-table [] h = refl
Dict-table ((k, v) ∷ d) h =
    let tail : table (deps_of d) (keys d) ≡ table (deps_of ((k, v) ∷ d)) (keys d) =
      table_cong _ _ (keys d) (λ j m. ground (arith, h.0)) in
    let head : deps_of ((k, v) ∷ d) k ≡ v = ground arith in
    ground (arith, Dict-table d h.1, tail, head)

module _ (db : Arrangement LineageRow) (rows : List LineageRow) (resources : List ℕ) where
  abbrev dependencies : Dict (List ℕ)
  dependencies = build_dependencies db rows resources

  pub contains-keys-dependencies : (k : ℕ) → contains k (keys dependencies) ≡ contains k resources
  unfolding build_dependencies
  contains-keys-dependencies k =
      rw (keys-add_edges (blank_from [] resources) (select_edges db rows resources))
        (contains-keys-blank k [] resources)

  pub keys-dependencies-IsDistinct : IsDistinct (keys dependencies)
  unfolding build_dependencies
  keys-dependencies-IsDistinct =
      rw (keys-add_edges (blank_from [] resources) (select_edges db rows resources))
        (blank-IsDistinct [] resources tt)

  pub deps-IsDistinct : (k : ℕ) → IsDistinct (deps_of dependencies k)
  unfolding build_dependencies
  deps-IsDistinct k =
      add_edges-IsDistinct k (blank_from [] resources) (select_edges db rows resources)
        (rw (deps_of-blank k [] resources (λ j. refl)) tt)

  -- Among the resources, the dictionary says what the table says.
  pub deps-depends :
      (k u : ℕ) → contains u (deps_of dependencies k) ≡ (contains k resources && depends rows k u)
  unfolding build_dependencies select_edges
  deps-depends k u =
      rw
        (
          contains-add_edges u k (blank_from [] resources) (select_edges db rows resources),
          deps_of-blank k [] resources (λ j. refl),
          contains-keys-blank k [] resources,
          any-perm (joins u k)
              (db.arrange_perm (keep (λ row. contains row.downstream_resource_id resources) rows)),
          any-keep u k resources rows,
        )
        (ground arith)
