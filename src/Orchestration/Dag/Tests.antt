-- ===== src/Orchestration/Dag/Tests.antt =====
-- Graphs over a small table, and the theorems about them there.
use optaic_trading.Prelude.{
  ℕ, contains, ◌≡◌, true, none, some, [], ◌∷◌, nat_eq, ok, err, refl, sym, subst, arith, String,
}
use optaic_trading.Prelude.Dict.{keys}
use optaic_trading.Database.{stored}
use optaic_trading.Orchestration.Dag.{
  NodeData, DependencyGraph, source_not_in_graph, empty_graph, add_node, add_edge, to_dict,
  from_dict, Resource, Session, describe, link_visited, each_upstream, lineage_rows, crawl_resource,
  crawl, build_graph,
}
use optaic_trading.Orchestration.Dag.RoundTrip.{
  Built, from_nothing, with_node, with_edge, received, from_dict-to_dict,
}
use optaic_trading.Orchestration.Dag.Crawl.{Owned, RowsOwned, build_graph_total}

abbrev dataset : ℕ → String → NodeData
dataset id name = record {
  resource_id = id;
  name = name;
  resource_type = "DatasetInstance";
  code_ref = some "prices";
  config = [];
  status = "stale";
  last_run_at = some 7;
  last_data_date = none;
  error_message = none;
}

abbrev two : DependencyGraph
two = add_node (dataset 2 "returns") (add_node (dataset 1 "prices") empty_graph)

abbrev joined : DependencyGraph
joined = record two { edges = record { source = 1; target = 2 } ∷ [] }

joined-Built : Built joined
unfolding add_node add_edge
joined-Built =
    with_edge 1 2 refl
      (with_node (dataset 2 "returns") (with_node (dataset 1 "prices") from_nothing))

from_dict-to_dict_example : from_dict (to_dict joined) ≡ ok (received joined)
from_dict-to_dict_example = from_dict-to_dict joined joined-Built

abbrev resource : ℕ → Resource
resource tenant = record { tenant_id = tenant; name = "prices"; resource_type = "SignalInstance" }

-- Resource 2 depends on resource 1, whose tenant is given.
abbrev session : ℕ → Session
session tenant = record {
  resources = (1, resource tenant) ∷ (2, resource 9) ∷ [];
  datasets = [];
  rows =
      record {
        tenant_id = 9;
        upstream_resource_id = 1;
        downstream_resource_id = 2;
        edge_kind = "data_dependency";
      }
      ∷ [];
  store = record { statuses = []; tenants = [] };
}

one : Owned stored (session 9) 9 true 1
one = record { resource = resource 9; found = refl; owner = refl }

rows_owned : RowsOwned stored (session 9) 9 true
rows_owned u d row =
    let is_one : u ≡ 1 = ground arith in
    subst (λ v. Owned stored (session 9) 9 true v) (sym is_one) one

build_graph_total_example :
    (graph : DependencyGraph) × (build_graph stored (session 9) 9 true 10 2 ≡ ok graph)
    × Built graph
    × (contains 2 (keys graph.nodes) ≡ true)
build_graph_total_example =
    build_graph_total stored (session 9) 9 true 10 2 rows_owned
      (record { resource = resource 9; found = refl; owner = refl })

-- With resource 1 of another tenant, the crawl marks it as visited and then fails on its edge.
foreign : build_graph stored (session 8) 9 true 10 2 ≡ err (source_not_in_graph 1)
unfolding build_graph crawl crawl_resource each_upstream link_visited lineage_rows add_node add_edge
    describe
foreign = refl
