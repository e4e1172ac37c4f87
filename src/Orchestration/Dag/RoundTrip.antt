-- ===== src/Orchestration/Dag/RoundTrip.antt =====
-- A graph that is built by the operations and sent as a flow definition is the graph received.
use optaic_trading.Prelude.{
  ℕ, ◌≡◌, inl, inr, true, false, ◌||◌, none, List, [], ◌∷◌, ◌++◌, map, contains, IsDistinct, Result,
  ok, err, ◌>>=◌, arith, refl, sym, ap, ap₂, subst, ◌∙◌, Bool-cases, nat_beq, nat_eq,
}
use optaic_trading.Prelude.Dict.{Dict, keys, put, keys-put-IsDistinct, contains-keys-put}
use optaic_trading.Orchestration.Dag.{
  NodeData, GraphNode, GraphEdge, DependencyGraph, GraphError, source_not_in_graph,
  target_not_in_graph, empty_graph, node_of, add_node, add_edge, values, flow_node, to_dict,
  data_of, load_nodes, load_edges, from_dict,
}

-- The graphs that the operations build.
pub data Built : DependencyGraph → Type 0 where
  from_nothing : Built empty_graph
  with_node :
      {graph : DependencyGraph} (data_ : NodeData) → Built graph → Built (add_node data_ graph)
  with_edge :
      {graph next : DependencyGraph} (source target : ℕ)
      → add_edge source target graph ≡ ok next
      → Built graph
      → Built next

-- The nodes as they are received: when a resource ran last, its data date and its error are not
-- sent.
abbrev pub received_node : GraphNode → GraphNode
received_node node = record node {
  node_data = record node.node_data {
    last_run_at = none;
    last_data_date = none;
    error_message = none;
  };
}

abbrev pub received_nodes : Dict GraphNode → Dict GraphNode
received_nodes [] = []
received_nodes ((i, node) ∷ nodes) = (i, received_node node) ∷ received_nodes nodes

abbrev pub received : DependencyGraph → DependencyGraph
received graph = record { nodes = received_nodes graph.nodes; edges = graph.edges }

-- Each node stands under its own identifier, with the label and type of its data.
abbrev Named : Dict GraphNode → Type 0
Named [] = Unit
Named ((i, node) ∷ nodes) =
    (i ≡ node.node_data.resource_id) × (node ≡ node_of node.node_data) × Named nodes

abbrev Joined : Dict GraphNode → List GraphEdge → Type 0
Joined nodes [] = Unit
Joined nodes (edge ∷ edges) =
    (contains edge.source (keys nodes) ≡ true)
    × (contains edge.target (keys nodes) ≡ true)
    × Joined nodes edges

record Sound (graph : DependencyGraph) : Type 0 where
  distinct : IsDistinct (keys graph.nodes)
  named : Named graph.nodes
  joined : Joined graph.nodes graph.edges

put_new :
    (k : ℕ) (node : GraphNode) (nodes : Dict GraphNode)
    → contains k (keys nodes) ≡ false
    → put k node nodes ≡ nodes ++ (k, node) ∷ []
put_new k node [] h = refl
put_new k node ((i, other) ∷ nodes) h = ground (arith, put_new k node nodes)

put-Named :
    (data_ : NodeData) (nodes : Dict GraphNode)
    → Named nodes
    → Named (put data_.resource_id (node_of data_) nodes)
put-Named data_ [] h = (refl, refl, tt)
put-Named data_ ((i, other) ∷ nodes) (a, b, c) = elim (Bool-cases (nat_beq data_.resource_id i)) [
  | inl same ↦ rw same (ground arith, refl, c)
  | inr differ ↦ rw differ (a, b, put-Named data_ nodes c)
]

put-Joined :
    (k : ℕ) (node : GraphNode) (nodes : Dict GraphNode) (edges : List GraphEdge)
    → Joined nodes edges
    → Joined (put k node nodes) edges
put-Joined k node nodes [] h = tt
put-Joined k node nodes (edge ∷ edges) (a, b, c) = (
  ground (arith, contains-keys-put {V = GraphNode} edge.source k node nodes),
  ground (arith, contains-keys-put {V = GraphNode} edge.target k node nodes),
  put-Joined k node nodes edges c,
)

append-Joined :
    (nodes : Dict GraphNode) (edges : List GraphEdge) (edge : GraphEdge)
    → Joined nodes edges
    → contains edge.source (keys nodes) ≡ true
    → contains edge.target (keys nodes) ≡ true
    → Joined nodes (edges ++ edge ∷ [])
append-Joined nodes [] edge h s t = (s, t, tt)
append-Joined nodes (e ∷ edges) edge (a, b, c) s t = (a, b, append-Joined nodes edges edge c s t)

add_node-Sound :
    (data_ : NodeData) (graph : DependencyGraph) → Sound graph → Sound (add_node data_ graph)
unfolding add_node
add_node-Sound data_ graph sound =
    elim (Bool-cases (contains data_.resource_id (keys graph.nodes))) [
      | inl known ↦ simp (known) sound
      | inr fresh ↦ simp (fresh) (record {
        distinct =
            keys-put-IsDistinct {V = GraphNode} data_.resource_id (node_of data_) graph.nodes
              sound.distinct;
        named = put-Named data_ graph.nodes sound.named;
        joined = put-Joined data_.resource_id (node_of data_) graph.nodes graph.edges sound.joined;
      })
    ]

pub add_edge-ok :
    (source target : ℕ) (graph : DependencyGraph)
    → contains source (keys graph.nodes) ≡ true
    → contains target (keys graph.nodes) ≡ true
    → add_edge source target graph
      ≡ ok
          (record graph { edges = graph.edges ++ record { source = source; target = target } ∷ [] })
unfolding add_edge
add_edge-ok source target graph s t = simp (s, t) refl

append_cons {ℓ} :
    {A : Type ℓ} (xs : List A) (x : A) (ys : List A) → (xs ++ x ∷ []) ++ ys ≡ xs ++ x ∷ ys
append_cons [] x ys = refl
append_cons (y ∷ xs) x ys = ap (λ l. y ∷ l) (append_cons xs x ys)

append_nil {ℓ} : {A : Type ℓ} (xs : List A) → xs ++ [] ≡ xs
append_nil [] = refl
append_nil (x ∷ xs) = ap (λ l. x ∷ l) (append_nil xs)

contains-keys-append :
    (j k : ℕ) (node : GraphNode) (nodes : Dict GraphNode)
    → contains j (keys (nodes ++ (k, node) ∷ [])) ≡ (contains j (keys nodes) || nat_beq j k)
contains-keys-append j k node [] = ground arith
contains-keys-append j k node ((i, other) ∷ nodes) =
    ground (arith, contains-keys-append j k node nodes)

add_new_node :
    (data_ : NodeData) (nodes : Dict GraphNode) (edges : List GraphEdge)
    → contains data_.resource_id (keys nodes) ≡ false
    → add_node data_ (record { nodes = nodes; edges = edges })
      ≡ record { nodes = nodes ++ (data_.resource_id, node_of data_) ∷ []; edges = edges }
unfolding add_node
add_new_node data_ nodes edges fresh = simp (fresh) (
    ap (λ (d : Dict GraphNode). record { nodes = d; edges = edges })
      (put_new data_.resource_id (node_of data_) nodes fresh))

load_nodes-received :
    (nodes loaded : Dict GraphNode)
    → Named nodes
    → IsDistinct (keys nodes)
    → ((j : ℕ) → contains j (keys nodes) ≡ true → contains j (keys loaded) ≡ false)
    → load_nodes (map flow_node (values nodes)) (record { nodes = loaded; edges = [] })
      ≡ record { nodes = loaded ++ received_nodes nodes; edges = [] }
unfolding load_nodes
load_nodes-received [] loaded named distinct apart =
    ap (λ (d : Dict GraphNode). record { nodes = d; edges = [] }) (sym (append_nil loaded))
load_nodes-received ((i, node) ∷ nodes) loaded (key, whole, named) (first, distinct) apart =
    let fresh : contains node.node_data.resource_id (keys loaded) ≡ false =
      apart node.node_data.resource_id (ground arith) in
    let loaded_node = node_of (data_of (flow_node node)) in
    let same : (node.node_data.resource_id, loaded_node) ≡ (i, received_node node) =
      ap₂ (λ (j : ℕ) (n : GraphNode). (j, n)) (sym key)
        (ap (λ (n : GraphNode). node_of (data_of (flow_node n))) whole
          ∙ ap (λ (n : GraphNode). received_node n) (sym whole)) in
    ap (load_nodes (map flow_node (values nodes)))
      (add_new_node (data_of (flow_node node)) loaded [] fresh)
    ∙ load_nodes-received nodes (loaded ++ (node.node_data.resource_id, loaded_node) ∷ []) named
        distinct
        (λ j m.
          ground
            (arith, apart j, contains-keys-append j node.node_data.resource_id loaded_node loaded))
    ∙ ap (λ (d : Dict GraphNode). record { nodes = d; edges = [] })
        (append_cons loaded (node.node_data.resource_id, loaded_node) (received_nodes nodes)
          ∙ ap (λ (e : ℕ × GraphNode). loaded ++ e ∷ received_nodes nodes) same)

load_edges-joined :
    (nodes : Dict GraphNode) (edges loaded : List GraphEdge)
    → Joined nodes edges
    → load_edges edges (record { nodes = nodes; edges = loaded })
      ≡ ok (record { nodes = nodes; edges = loaded ++ edges })
unfolding load_edges
load_edges-joined nodes [] loaded h =
    ap (λ (l : List GraphEdge). ok (record { nodes = nodes; edges = l })) (sym (append_nil loaded))
load_edges-joined nodes (edge ∷ edges) loaded (s, t, h) =
    ap (λ (r : Result GraphError DependencyGraph). r >>= load_edges edges)
      (add_edge-ok edge.source edge.target (record { nodes = nodes; edges = loaded }) s t)
    ∙ load_edges-joined nodes edges (loaded ++ edge ∷ []) h
    ∙ ap (λ (l : List GraphEdge). ok (record { nodes = nodes; edges = l }))
        (append_cons loaded edge edges)

keys-received : (nodes : Dict GraphNode) → keys (received_nodes nodes) ≡ keys nodes
keys-received [] = refl
keys-received ((i, node) ∷ nodes) = ap (λ (l : List ℕ). i ∷ l) (keys-received nodes)

Joined-keys :
    (nodes others : Dict GraphNode) (edges : List GraphEdge)
    → keys others ≡ keys nodes
    → Joined nodes edges
    → Joined others edges
Joined-keys nodes others [] e h = tt
Joined-keys nodes others (edge ∷ edges) e (s, t, h) = (
  ap (contains edge.source) e ∙ s,
  ap (contains edge.target) e ∙ t,
  Joined-keys nodes others edges e h,
)

pub add_edge-missing_source :
    (source target : ℕ) (graph : DependencyGraph)
    → contains source (keys graph.nodes) ≡ false
    → add_edge source target graph ≡ err (source_not_in_graph source)
unfolding add_edge
add_edge-missing_source source target graph s = simp (s) refl

add_edge-missing_target :
    (source target : ℕ) (graph : DependencyGraph)
    → contains source (keys graph.nodes) ≡ true
    → contains target (keys graph.nodes) ≡ false
    → add_edge source target graph ≡ err (target_not_in_graph target)
unfolding add_edge
add_edge-missing_target source target graph s t = simp (s, t) refl

add_edge-Sound :
    (source target : ℕ) (graph next : DependencyGraph)
    → add_edge source target graph ≡ ok next
    → Sound graph
    → Sound next
add_edge-Sound source target graph next added sound =
    elim (Bool-cases (contains source (keys graph.nodes))) [
      | inr missing ↦ cc (sym (add_edge-missing_source source target graph missing) ∙ added)
      | inl s ↦ elim (Bool-cases (contains target (keys graph.nodes))) [
        | inr missing ↦ cc (sym (add_edge-missing_target source target graph s missing) ∙ added)
        | inl t ↦
            let edge : GraphEdge = record { source = source; target = target } in
            let longer = record graph { edges = graph.edges ++ edge ∷ [] } in
            let same : longer ≡ next =
              ap (λ (r : Result GraphError DependencyGraph). elim r [ ok g ↦ g | err e ↦ next ])
                (sym (add_edge-ok source target graph s t) ∙ added) in
            subst Sound same (record {
              distinct = sound.distinct;
              named = sound.named;
              joined = append-Joined graph.nodes graph.edges edge sound.joined s t;
            })
      ]
    ]

built-Sound : {graph : DependencyGraph} → Built graph → Sound graph
built-Sound from_nothing = record { distinct = tt; named = tt; joined = tt }
built-Sound (with_node data_ built) = add_node-Sound data_ _ (built-Sound built)
built-Sound (with_edge source target added built) =
    add_edge-Sound source target _ _ added (built-Sound built)

-- A graph that was built by adding nodes and edges is received as it was sent, with its nodes in
-- their order, its edges, and of each node all but its last run, data date and error.
pub from_dict-to_dict :
    (graph : DependencyGraph) → Built graph → from_dict (to_dict graph) ≡ ok (received graph)
unfolding from_dict to_dict
from_dict-to_dict graph built =
    let sound = built-Sound built in
    ap (load_edges graph.edges)
      (load_nodes-received graph.nodes [] sound.named sound.distinct (λ j m. refl))
    ∙ load_edges-joined (received_nodes graph.nodes) graph.edges [] (
        Joined-keys graph.nodes (received_nodes graph.nodes) graph.edges (keys-received graph.nodes)
          sound.joined)
