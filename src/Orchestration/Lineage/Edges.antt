-- ===== src/Orchestration/Lineage/Edges.antt =====
-- The operations of libs/orchestration/lineage.py that write lineage rows: `add_lineage_edge`,
-- `remove_lineage_edge`, `build_dag_for_instance` and `create_lineage_and_subscriptions`. The JSON
-- values of a configuration, and the parsing of a value as a UUID, are parameters.
pub mod Rows
pub mod Configured
pub mod Tests
use optaic_trading.Prelude.{
  ℕ, Bool, true, false, not, ◌&&◌, Option, none, some, List, [], ◌∷◌, ◌++◌, keep, any, all, String,
  if◌then◌else◌, contains, Result, ok, err,
}
use optaic_trading.Prelude.Dict.{Dict, get}
use optaic_trading.Orchestration.Lineage.Table.{LineageRow, joins}

-- `Subscription` (libs/db/models/subscription.py)
pub record Subscription : Type 0 where
  pub tenant_id : ℕ
  pub principal_id : ℕ
  pub resource_id : ℕ
  pub scope : String

-- The rows of the tables that have foreign keys here, and of the two tables that are written
pub record Links : Type 0 where
  pub tenants : List ℕ
  pub resources : List ℕ
  pub principals : List ℕ
  pub lineage : List LineageRow
  pub subscriptions : List Subscription

-- A session does not flush before a query (libs/db/session.py): what is added to it is in no table
-- before the flush.
pub record EdgeSession : Type 0 where
  pub links : Links
  pub new_lineage : List LineageRow
  pub new_subscriptions : List Subscription

unfoldable pub add_lineage_edge : ℕ → ℕ → ℕ → String → EdgeSession → EdgeSession
add_lineage_edge tenant_id upstream_id downstream_id edge_kind session = record session {
  new_lineage =
      session.new_lineage
      ++ record {
        tenant_id = tenant_id;
        upstream_resource_id = upstream_id;
        downstream_resource_id = downstream_id;
        edge_kind = edge_kind;
      }
        ∷ [];
}

-- Whether a row of the table was deleted, and the session after it; the tenant is not asked for.
unfoldable pub remove_lineage_edge : ℕ → ℕ → EdgeSession → Bool × EdgeSession
remove_lineage_edge upstream_id downstream_id session = (
  any (joins upstream_id downstream_id) session.links.lineage,
  record session {
    links = record session.links {
      lineage = keep (λ row. not (joins upstream_id downstream_id row)) session.links.lineage;
    };
  },
)

-- IntegrityError: a key that the table it refers to does not hold
pub data FlushError : Type 0 where
  foreign_key : FlushError

abbrev pub row_refers : Links → LineageRow → Bool
row_refers links row =
    contains row.tenant_id links.tenants
    && contains row.upstream_resource_id links.resources
    && contains row.downstream_resource_id links.resources

abbrev pub subscription_refers : Links → Subscription → Bool
subscription_refers links s =
    contains s.tenant_id links.tenants
    && contains s.principal_id links.principals
    && contains s.resource_id links.resources

-- The foreign keys of `DatasetLineage` and `Subscription`, as the database checks them
unfoldable pub flush : EdgeSession → Result FlushError Links
flush session =
    if all (row_refers session.links) session.new_lineage
      && all (subscription_refers session.links) session.new_subscriptions
    then ok (record session.links {
      lineage = session.links.lineage ++ session.new_lineage;
      subscriptions = session.links.subscriptions ++ session.new_subscriptions;
    })
    else err foreign_key

pub record LineageDag : Type 0 where
  pub instance_id : ℕ
  pub tenant_id : ℕ
  pub upstream_ids : List ℕ

unfoldable pub create_each : ℕ → ℕ → List ℕ → EdgeSession → EdgeSession
create_each tenant_id instance_id [] session = session
create_each tenant_id instance_id (upstream_id ∷ upstream_ids) session =
    create_each tenant_id instance_id upstream_ids (record session {
      new_lineage =
          session.new_lineage
          ++ record {
            tenant_id = tenant_id;
            upstream_resource_id = upstream_id;
            downstream_resource_id = instance_id;
            edge_kind = "data_dependency";
          }
            ∷ [];
      new_subscriptions =
          session.new_subscriptions
          ++ record {
            tenant_id = tenant_id;
            principal_id = instance_id;
            resource_id = upstream_id;
            scope = "completion";
          }
            ∷ [];
    })

unfoldable pub create_lineage_and_subscriptions : LineageDag → EdgeSession → EdgeSession
unfolding create_each
create_lineage_and_subscriptions dag = create_each dag.tenant_id dag.instance_id dag.upstream_ids

module _ (Json : Type 0) (parse_uuid : Json → Option ℕ) (truthy : Json → Bool) where
  -- An entry of `sources`: the value of its dataset_id, where it is an object that has one.
  pub data Source : Type 0 where
    with_dataset : Json → Source
    without_dataset : Source

  -- The keys that are looked for; of `expression_inputs` the values.
  pub record PipelineConfig : Type 0 where
    pub input_datasets : Option (List Json)
    pub upstream_datasets : Option (List Json)
    pub expression_inputs : Option (List Json)
    pub sources : Option (List Source)

  -- upstream_ids.append(UUID(str(value))), and a value that is no UUID is passed over.
  unfoldable pub append_parsed : List Json → List ℕ → List ℕ
  append_parsed [] ids = ids
  append_parsed (value ∷ values) ids = elim (parse_uuid value) [
    | none ↦ append_parsed values ids
    | some uuid ↦ append_parsed values (ids ++ uuid ∷ [])
  ]

  abbrev pub dataset_values : List Source → List Json
  dataset_values [] = []
  dataset_values (without_dataset ∷ sources) = dataset_values sources
  dataset_values (with_dataset value ∷ sources) = value ∷ dataset_values sources

  abbrev pub if_given {ℓ} : {A : Type ℓ} → Option (List A) → List A
  if_given none = []
  if_given (some values) = values

  unfoldable pub extract_upstream_from_pipeline_config : PipelineConfig → List ℕ
  unfolding append_parsed
  extract_upstream_from_pipeline_config config =
      append_parsed (dataset_values (if_given config.sources)) (
        append_parsed (if_given config.expression_inputs) (
          append_parsed (if_given config.upstream_datasets)
            (append_parsed (if_given config.input_datasets) [])))

  -- What the session holds: the pipeline instance of a dataset instance, the configuration of a
  -- pipeline instance, and the values of input_datasets_json of an experiment instance.
  pub record Instances : Type 0 where
    pub datasets : Dict ℕ
    pub pipelines : Dict PipelineConfig
    pub experiments : Dict (List Json)

  unfoldable pub pipeline_upstreams : Instances → ℕ → List ℕ
  pipeline_upstreams session instance_id = elim (get instance_id session.datasets) [
    | none ↦ []
    | some pipeline_instance_id ↦ elim (get pipeline_instance_id session.pipelines) [
      | none ↦ []
      | some config ↦ extract_upstream_from_pipeline_config config
    ]
  ]

  unfoldable pub build_dag_for_instance : Instances → ℕ → ℕ → LineageDag
  build_dag_for_instance session instance_id tenant_id = record {
    instance_id = instance_id;
    tenant_id = tenant_id;
    upstream_ids = elim (get instance_id session.experiments) [
      | none ↦ pipeline_upstreams session instance_id
      | some values ↦ append_parsed (keep truthy values) (pipeline_upstreams session instance_id)
    ];
  }
