-- ===== src/Orchestration/Dag.antt =====
-- libs/orchestration/dag.py: the graph of nodes and edges that a run executes, its serialized
-- form, and the crawl over the lineage rows that builds it. The string of a UUID is the number of
-- the resource. A configuration is a dictionary from keys to JSON texts.
pub mod RoundTrip
pub mod Crawl
pub mod Tests
use optaic_trading.Prelude.{
  ℕ, zero, suc, Bool, true, false, ◌&&◌, ◌||◌, Option, none, some, List, [], ◌∷◌, ◌++◌, map, keep,
  String, ◌==◌, string_eq, nat_eq, if◌then◌else◌, contains, Result, ok, err, ◌>>=◌,
}
use optaic_trading.Prelude.Dict.{Dict, keys, get, put}
use optaic_trading.Database.{Arrangement}
use optaic_trading.Orchestration.StatusStore.{Store, get_status}
use optaic_trading.Orchestration.Lineage.Table.{LineageRow}

pub record NodeData : Type 0 where
  pub resource_id : ℕ
  pub name : String
  pub resource_type : String
  pub code_ref : Option String
  pub config : Dict String
  pub status : String
  pub last_run_at : Option ℕ
  pub last_data_date : Option ℕ
  pub error_message : Option String

pub record GraphNode : Type 0 where
  pub id : ℕ
  pub label : String
  pub node_type : String
  pub node_data : NodeData

pub record GraphEdge : Type 0 where
  pub source : ℕ
  pub target : ℕ

pub record DependencyGraph : Type 0 where
  pub nodes : Dict GraphNode
  pub edges : List GraphEdge

pub data GraphError : Type 0 where
  source_not_in_graph target_not_in_graph : ℕ → GraphError

-- `DependencyGraph()`
abbrev pub empty_graph : DependencyGraph
empty_graph = record { nodes = []; edges = [] }

abbrev pub node_of : NodeData → GraphNode
node_of data_ = record {
  id = data_.resource_id;
  label = data_.name;
  node_type = data_.resource_type;
  node_data = data_;
}

unfoldable pub add_node : NodeData → DependencyGraph → DependencyGraph
add_node data_ graph =
    if contains data_.resource_id (keys graph.nodes)
    then graph
    else record graph { nodes = put data_.resource_id (node_of data_) graph.nodes }

unfoldable pub add_edge : ℕ → ℕ → DependencyGraph → Result GraphError DependencyGraph
add_edge source_id target_id graph =
    if contains source_id (keys graph.nodes)
    then (if contains target_id (keys graph.nodes)
        then ok (record graph {
          edges = graph.edges ++ record { source = source_id; target = target_id } ∷ [];
        })
        else err (target_not_in_graph target_id))
    else err (source_not_in_graph source_id)

-- [self.nodes[i] for i in ids if i in self.nodes]
abbrev pub nodes_at : Dict GraphNode → List ℕ → List GraphNode
nodes_at nodes [] = []
nodes_at nodes (i ∷ ids) = elim (get i nodes) [
  | none ↦ nodes_at nodes ids
  | some node ↦ node ∷ nodes_at nodes ids
]

unfoldable pub get_upstream : ℕ → DependencyGraph → List GraphNode
get_upstream resource_id graph =
    nodes_at graph.nodes
      (map (λ edge. edge.source) (keep (λ edge. edge.target == resource_id) graph.edges))

unfoldable pub get_downstream : ℕ → DependencyGraph → List GraphNode
get_downstream resource_id graph =
    nodes_at graph.nodes
      (map (λ edge. edge.target) (keep (λ edge. edge.source == resource_id) graph.edges))

abbrev pub values : Dict GraphNode → List GraphNode
values [] = []
values ((i, node) ∷ nodes) = node ∷ values nodes

unfoldable pub get_stale_nodes : DependencyGraph → List GraphNode
get_stale_nodes graph =
    keep (λ node. node.node_data.status == "stale" || node.node_data.status == "unknown")
      (values graph.nodes)

-- The entries of a flow definition: code_ref, config and status may be missing.
pub record FlowNode : Type 0 where
  pub resource_id : ℕ
  pub label : String
  pub node_type : String
  pub code_ref : Option String
  pub config : Option (Dict String)
  pub status : Option String

pub record FlowDefinition : Type 0 where
  pub nodes : List FlowNode
  pub edges : List GraphEdge

abbrev pub flow_node : GraphNode → FlowNode
flow_node node = record {
  resource_id = node.node_data.resource_id;
  label = node.label;
  node_type = node.node_type;
  code_ref = node.node_data.code_ref;
  config = some node.node_data.config;
  status = some node.node_data.status;
}

unfoldable pub to_dict : DependencyGraph → FlowDefinition
to_dict graph = record { nodes = map flow_node (values graph.nodes); edges = graph.edges }

abbrev pub or_else {ℓ} : {A : Type ℓ} → Option A → A → A
or_else none default = default
or_else (some a) default = a

abbrev pub data_of : FlowNode → NodeData
data_of node = record {
  resource_id = node.resource_id;
  name = node.label;
  resource_type = node.node_type;
  code_ref = node.code_ref;
  config = or_else node.config [];
  status = or_else node.status "unknown";
  last_run_at = none;
  last_data_date = none;
  error_message = none;
}

unfoldable pub load_nodes : List FlowNode → DependencyGraph → DependencyGraph
unfolding add_node
load_nodes [] graph = graph
load_nodes (node ∷ nodes) graph = load_nodes nodes (add_node (data_of node) graph)

unfoldable pub load_edges : List GraphEdge → DependencyGraph → Result GraphError DependencyGraph
unfolding add_edge
load_edges [] graph = ok graph
load_edges (edge ∷ edges) graph = add_edge edge.source edge.target graph >>= load_edges edges

unfoldable pub from_dict : FlowDefinition → Result GraphError DependencyGraph
unfolding load_nodes load_edges
from_dict definition = load_edges definition.edges (load_nodes definition.nodes empty_graph)

-- What the session holds for `build_graph`.
pub record Resource : Type 0 where
  pub tenant_id : ℕ
  pub name : String
  pub resource_type : String

pub record DatasetInstance : Type 0 where
  pub freshness_status : Option String
  pub last_data_date : Option ℕ

pub record Session : Type 0 where
  pub resources : Dict Resource
  pub datasets : Dict DatasetInstance
  pub rows : List LineageRow
  pub store : Store

-- The graph under construction and the set `visited`
pub record Crawled : Type 0 where
  pub graph : DependencyGraph
  pub visited : List ℕ

-- `dataset.freshness_status or "unknown"`
abbrev pub status_or_unknown : Option String → String
status_or_unknown none = "unknown"
status_or_unknown (some status) = if status == "" then "unknown" else status

-- The data of the node for a resource, with its freshness where it is a dataset.
unfoldable pub describe : Session → Bool → ℕ → Resource → NodeData
describe session include_status resource_id resource =
    let plain : NodeData = record {
      resource_id = resource_id;
      name = resource.name;
      resource_type = resource.resource_type;
      code_ref = none;
      config = [];
      status = "unknown";
      last_run_at = none;
      last_data_date = none;
      error_message = none;
    } in
    elim (resource.resource_type == "DatasetInstance") [
      | false ↦ plain
      | true ↦ elim (get resource_id session.datasets) [
        | none ↦ plain
        | some dataset ↦
            let dated : NodeData = record plain {
              status = status_or_unknown dataset.freshness_status;
              last_data_date = dataset.last_data_date;
            } in
            elim (if include_status then get_status resource_id session.store else none) [
              | none ↦ dated
              | some row ↦ record dated {
                last_run_at = row.last_pipeline_run;
                error_message = row.error_message;
              }
            ]
      ]
    ]

-- if upstream_id in visited: graph.add_edge(upstream_id, resource_id)
unfoldable pub link_visited : ℕ → ℕ → Crawled → Result GraphError Crawled
link_visited upstream_id resource_id crawled =
    if contains upstream_id crawled.visited
    then (add_edge upstream_id resource_id crawled.graph >>= λ graph.
        ok (record crawled { graph = graph }))
    else ok crawled

-- The loop over the lineage rows, with the recursive call `crawl(upstream_id, depth + 1)` given
unfoldable pub each_upstream :
    (ℕ → Crawled → Result GraphError Crawled)
    → ℕ
    → List LineageRow
    → Crawled
    → Result GraphError Crawled
each_upstream visit resource_id [] crawled = ok crawled
each_upstream visit resource_id (row ∷ rows) crawled =
    visit row.upstream_resource_id crawled >>= λ deeper.
    link_visited row.upstream_resource_id resource_id deeper
    >>= each_upstream visit resource_id rows

module _ (db : Arrangement LineageRow) (session : Session) (tenant_id : ℕ) where
  -- select(DatasetLineage).where(tenant_id == …, downstream_resource_id == …)
  unfoldable pub lineage_rows : ℕ → List LineageRow
  lineage_rows resource_id = db.arrange (
      keep (λ row. row.tenant_id == tenant_id && row.downstream_resource_id == resource_id)
        session.rows)

module _ (db : Arrangement LineageRow) (session : Session) (tenant_id : ℕ)
    (include_status : Bool) where
  -- The body of `crawl`, behind `visited.add(resource_id)` and the lookup of the resource
  unfoldable pub crawl_resource :
      (ℕ → Crawled → Result GraphError Crawled)
      → ℕ
      → Option Resource
      → Crawled
      → Result GraphError Crawled
  crawl_resource visit resource_id none crawled = ok crawled
  crawl_resource visit resource_id (some resource) crawled =
      if resource.tenant_id == tenant_id
      then each_upstream visit resource_id (lineage_rows db session tenant_id resource_id)
          (record crawled {
            graph = add_node (describe session include_status resource_id resource) crawled.graph;
          })
      else ok crawled

  -- The first argument is max_depth + 1 - depth: at 0 the depth is over max_depth.
  unfoldable pub crawl : ℕ → ℕ → Crawled → Result GraphError Crawled
  crawl zero resource_id crawled = ok crawled
  crawl (suc left) resource_id crawled = elim (contains resource_id crawled.visited) [
    | true ↦ ok crawled
    | false ↦
        crawl_resource (crawl left) resource_id (get resource_id session.resources)
          (record crawled { visited = resource_id ∷ crawled.visited })
  ]

  unfoldable pub build_graph : ℕ → ℕ → Result GraphError DependencyGraph
  build_graph max_depth root_id =
      crawl (suc max_depth) root_id (record { graph = empty_graph; visited = [] }) >>= λ crawled.
      ok crawled.graph
