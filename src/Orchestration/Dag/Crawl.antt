-- ===== src/Orchestration/Dag/Crawl.antt =====
-- `build_graph` returns a graph where the lineage rows of the tenant lead to resources of the tenant.
use optaic_trading.Prelude.{
  ℕ, zero, suc, ◌≡◌, ◌<◌, inl, inr, Bool, true, ◌||◌, ◌&&◌, some, List, [], ◌∷◌, ◌++◌, map, keep,
  any, ◌==◌, nat_eq, string_eq, contains, Result, ok, ◌>>=◌, arith, refl, sym, ap, ◌∙◌, Bool-cases,
  nat_beq,
}
use optaic_trading.Prelude.Dict.{keys, get, contains-keys-put}
use optaic_trading.Database.{Arrangement, any-perm, contains-map}
use optaic_trading.Orchestration.Lineage.Table.{LineageRow, joins}
use optaic_trading.Orchestration.Dag.{
  NodeData, GraphNode, GraphEdge, DependencyGraph, GraphError, empty_graph, node_of, add_node,
  Resource, Session, Crawled, describe, link_visited, each_upstream, lineage_rows, crawl_resource,
  crawl, build_graph,
}
use optaic_trading.Orchestration.Dag.RoundTrip.{
  Built, from_nothing, with_node, with_edge, add_edge-ok,
}

-- The visited resources are nodes of a graph that the operations built.
record Placed (crawled : Crawled) : Type 0 where
  placed :
      (n : ℕ) → contains n crawled.visited ≡ true → contains n (keys crawled.graph.nodes) ≡ true
  built : Built crawled.graph

abbrev Grows : Crawled → Crawled → Type 0
Grows before later =
    (n : ℕ)
    → contains n (keys before.graph.nodes) ≡ true
    → contains n (keys later.graph.nodes) ≡ true

-- A visit succeeds, and loses no node.
abbrev Succeeds : Crawled → Result GraphError Crawled → Type 0
Succeeds before result = (later : Crawled) × (result ≡ ok later) × Placed later × Grows before later

contains-keys-add_node :
    (n : ℕ) (data_ : NodeData) (graph : DependencyGraph)
    → contains n (keys (add_node data_ graph).nodes)
      ≡ (nat_beq n data_.resource_id || contains n (keys graph.nodes))
unfolding add_node
contains-keys-add_node n data_ graph =
    elim (Bool-cases (contains data_.resource_id (keys graph.nodes))) [
      | inl known ↦ simp (known) (elim (Bool-cases (nat_beq n data_.resource_id)) [
        | inl same ↦ let here : n ≡ data_.resource_id = ground arith in rw here (ground arith)
        | inr other ↦ ground arith
      ])
      | inr fresh ↦
          simp (fresh)
            (contains-keys-put {V = GraphNode} n data_.resource_id (node_of data_) graph.nodes)
    ]

describe-id :
    (session : Session) (include_status : Bool) (id : ℕ) (resource : Resource)
    → (describe session include_status id resource).resource_id ≡ id
unfolding describe
describe-id session include_status id resource = ground arith

module _ (db : Arrangement LineageRow) (session : Session) (tenant_id : ℕ)
    (include_status : Bool) where
  -- A resource of the tenant.
  pub record Owned (id : ℕ) : Type 0 where
    pub resource : Resource
    pub found : get id session.resources ≡ some resource
    pub owner : (resource.tenant_id == tenant_id) ≡ true

  link_visited-Succeeds :
      (u id : ℕ) (crawled : Crawled)
      → Placed crawled
      → contains id (keys crawled.graph.nodes) ≡ true
      → Succeeds crawled (link_visited u id crawled)
  unfolding link_visited
  link_visited-Succeeds u id crawled ready has_id = elim (Bool-cases (contains u crawled.visited)) [
    | inr unseen ↦ (crawled, simp (unseen) refl, ready, λ n m. m)
    | inl seen ↦
        let edge : GraphEdge = record { source = u; target = id } in
        let graph = record crawled.graph { edges = crawled.graph.edges ++ edge ∷ [] } in
        let added = add_edge-ok u id crawled.graph (ready.placed u seen) has_id in
        (
          record crawled { graph = graph },
          simp (seen) (
              ap
                (λ (r : Result GraphError DependencyGraph).
                  r >>= λ g. ok (record crawled { graph = g }))
                added),
          record { placed = ready.placed; built = with_edge u id added ready.built },
          λ n m. m,
        )
  ]

  each_upstream-Succeeds :
      (visit : ℕ → Crawled → Result GraphError Crawled) (id : ℕ) (rows : List LineageRow)
      (crawled : Crawled)
      → ((u : ℕ) (at : Crawled) → Owned u → Placed at → Succeeds at (visit u at))
      → ((u : ℕ) → contains u (map (λ row. row.upstream_resource_id) rows) ≡ true → Owned u)
      → Placed crawled
      → contains id (keys crawled.graph.nodes) ≡ true
      → Succeeds crawled (each_upstream visit id rows crawled)
  unfolding each_upstream
  each_upstream-Succeeds visit id [] crawled visits owned ready has_id =
      (crawled, refl, ready, λ n m. m)
  each_upstream-Succeeds visit id (row ∷ rows) crawled visits owned ready has_id =
      let u = row.upstream_resource_id in
      let (deeper, went, ready1, grew1) = visits u crawled (owned u (ground arith)) ready in
      let (linked, joined, ready2, grew2) =
        link_visited-Succeeds u id deeper ready1 (grew1 id has_id) in
      let (later, rest, ready3, grew3) =
        each_upstream-Succeeds visit id rows linked visits (λ v m. owned v (ground arith)) ready2
          (grew2 id (grew1 id has_id)) in
      (later, rw (went, joined) rest, ready3, λ n m. grew3 n (grew2 n (grew1 n m)))

  -- The tenant's lineage rows start from resources of the tenant.
  abbrev pub RowsOwned : Type 0
  RowsOwned =
      (u d : ℕ)
      → any (λ row. (row.tenant_id == tenant_id) && joins u d row) session.rows ≡ true
      → Owned u

  any-rows :
      (u d : ℕ) (rows : List LineageRow)
      → any
          (λ row. nat_beq u row.upstream_resource_id)
          (keep (λ row. row.tenant_id == tenant_id && row.downstream_resource_id == d) rows)
        ≡ any (λ row. (row.tenant_id == tenant_id) && joins u d row) rows
  any-rows u d [] = refl
  any-rows u d (row ∷ rows) = ground (arith, any-rows u d rows)

  contains-lineage_rows :
      (u d : ℕ)
      → contains u (map (λ row. row.upstream_resource_id) (lineage_rows db session tenant_id d))
        ≡ any (λ row. (row.tenant_id == tenant_id) && joins u d row) session.rows
  unfolding lineage_rows
  contains-lineage_rows u d =
      contains-map u (λ row. row.upstream_resource_id) _
      ∙ any-perm _ (db.arrange_perm _)
      ∙ any-rows u d session.rows

  enter-Placed :
      (id : ℕ) (resource : Resource) (crawled : Crawled)
      → Placed crawled
      → Placed (record {
        graph = add_node (describe session include_status id resource) crawled.graph;
        visited = id ∷ crawled.visited;
      })
  enter-Placed id resource crawled ready =
      let data_ = describe session include_status id resource in
      let named : data_.resource_id ≡ id = describe-id session include_status id resource in
      record {
        placed = λ n m.
            contains-keys-add_node n data_ crawled.graph
            ∙ rw named (elim (Bool-cases (nat_beq n id)) [
              | inl same ↦ ground arith
              | inr other ↦ ground (arith, ready.placed n)
            ]);
        built = with_node data_ ready.built;
      }

  crawl-Succeeds :
      RowsOwned
      → (left id : ℕ) (crawled : Crawled) → Owned id
      → Placed crawled
      → (visit : Succeeds crawled (crawl db session tenant_id include_status left id crawled)) × (0
            < left
          → contains id (keys visit.0.graph.nodes) ≡ true)
  unfolding crawl crawl_resource
  crawl-Succeeds rows_owned zero id crawled owned ready =
      ((crawled, refl, ready, λ n m. m), λ some_left. absurd (omega arith))
  crawl-Succeeds rows_owned (suc left) id crawled owned ready =
      elim (Bool-cases (contains id crawled.visited)) [
        | inl seen ↦
            ((crawled, rw (crawl, seen) refl, ready, λ n m. m), λ some_left. ready.placed id seen)
        | inr new ↦
            let data_ = describe session include_status id owned.resource in
            let inside = enter-Placed id owned.resource crawled ready in
            let (later, e, ready1, grew) =
              each_upstream-Succeeds (crawl db session tenant_id include_status left) id
                (lineage_rows db session tenant_id id)
                (record { graph = add_node data_ crawled.graph; visited = id ∷ crawled.visited })
                (λ u at o r. (crawl-Succeeds rows_owned left u at o r).0)
                (λ u m. rows_owned u id (sym (contains-lineage_rows u id) ∙ m)) inside
                (inside.placed id (ground arith)) in
            (
              (
                later,
                rw (crawl, new, owned.found, owned.owner) e,
                ready1,
                λ n m. grew n (contains-keys-add_node n data_ crawled.graph ∙ ground arith),
              ),
              λ some_left. grew id (inside.placed id (ground arith)),
            )
      ]

-- Where the tenant's lineage rows start from resources of the tenant, the graph of one of its
-- resources is built without a ValueError, whatever the depth, by adding nodes and edges, and the
-- resource itself is in it.
pub build_graph_total :
    (db : Arrangement LineageRow) (session : Session) (tenant_id : ℕ) (include_status : Bool)
    (max_depth root_id : ℕ)
    → RowsOwned db session tenant_id include_status
    → Owned db session tenant_id include_status root_id
    → (graph : DependencyGraph) × (build_graph db session tenant_id include_status max_depth root_id
        ≡ ok graph)
      × Built graph
      × (contains root_id (keys graph.nodes) ≡ true)
unfolding build_graph
build_graph_total db session tenant_id include_status max_depth root_id rows_owned owned =
    let ((crawled, e, ready, grew), root_in) =
      crawl-Succeeds db session tenant_id include_status rows_owned (suc max_depth) root_id
        (record { graph = empty_graph; visited = [] }) owned
        (record { placed = λ n m. cc; built = from_nothing }) in
    (
      crawled.graph,
      ap (λ (r : Result GraphError Crawled). r >>= λ c. ok c.graph) e,
      ready.built,
      root_in (omega arith),
    )
