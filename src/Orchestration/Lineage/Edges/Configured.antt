-- ===== src/Orchestration/Lineage/Edges/Configured.antt =====
-- Which upstream resources a pipeline configuration names.
use optaic_trading.Prelude.{
  ℕ, ◌≡◌, Bool, false, ◌||◌, Option, none, some, List, [], ◌∷◌, ◌++◌, any, nat_beq, contains, inl,
  inr, contains-append, arith, ◌∙◌, Option-cases,
}
use optaic_trading.Prelude.Dict.{get}
use optaic_trading.Orchestration.Lineage.Edges.{
  PipelineConfig, append_parsed, dataset_values, if_given, extract_upstream_from_pipeline_config,
  Instances, pipeline_upstreams, build_dag_for_instance,
}

module _ (Json : Type 0) (parse_uuid : Json → Option ℕ) (truthy : Json → Bool) where
  -- The value is the UUID of the resource.
  abbrev pub names : ℕ → Json → Bool
  names u value = elim (parse_uuid value) [ none ↦ false | some uuid ↦ nat_beq u uuid ]

  contains-append_parsed :
      (u : ℕ) (values : List Json) (ids : List ℕ)
      → contains u (append_parsed Json parse_uuid truthy values ids)
        ≡ (contains u ids || any (names u) values)
  unfolding append_parsed
  contains-append_parsed u [] ids = ground arith
  contains-append_parsed u (value ∷ values) ids = elim (Option-cases (parse_uuid value)) [
    | inl none_parsed ↦ rw (append_parsed, names, none_parsed) (contains-append_parsed u values ids)
    | inr (uuid, parsed) ↦
        rw (append_parsed, names, parsed)
          (contains-append_parsed u values (ids ++ uuid ∷ [])
            ∙ ground (arith, contains-append u ids (uuid ∷ [])))
  ]

  extract-names :
      (config : PipelineConfig Json parse_uuid truthy) (u : ℕ)
      → contains u (extract_upstream_from_pipeline_config Json parse_uuid truthy config) ≡ (
          any (names u) (if_given Json parse_uuid truthy config.input_datasets)
          || any (names u) (if_given Json parse_uuid truthy config.upstream_datasets)
          || any (names u) (if_given Json parse_uuid truthy config.expression_inputs)
          || any (names u) (
              dataset_values Json parse_uuid truthy
                (if_given Json parse_uuid truthy config.sources)))
  unfolding extract_upstream_from_pipeline_config
  extract-names config u =
      let inputs = if_given Json parse_uuid truthy config.input_datasets in
      let upstreams = if_given Json parse_uuid truthy config.upstream_datasets in
      let expressions = if_given Json parse_uuid truthy config.expression_inputs in
      let first = append_parsed Json parse_uuid truthy inputs [] in
      let second = append_parsed Json parse_uuid truthy upstreams first in
      let third = append_parsed Json parse_uuid truthy expressions second in
      contains-append_parsed u
        (dataset_values Json parse_uuid truthy (if_given Json parse_uuid truthy config.sources))
        third
      ∙ rw
          (
            contains-append_parsed u expressions second,
            contains-append_parsed u upstreams first,
            contains-append_parsed u inputs [],
          )
          (ground arith)

  -- For a dataset instance with a pipeline configuration, the DAG holds exactly the resources whose
  -- UUID stands under one of the four keys of the configuration; values that are no UUID, and
  -- sources without a dataset_id, are passed over.
  pub build_dag-names :
      (session : Instances Json parse_uuid truthy) (instance_id tenant_id pipeline_instance_id : ℕ)
      (config : PipelineConfig Json parse_uuid truthy)
      → get instance_id session.datasets ≡ some pipeline_instance_id
      → get pipeline_instance_id session.pipelines ≡ some config
      → get instance_id session.experiments ≡ none
      → (u : ℕ)
      → contains u
          (build_dag_for_instance Json parse_uuid truthy session instance_id tenant_id).upstream_ids
        ≡ (any (names u) (if_given Json parse_uuid truthy config.input_datasets)
            || any (names u) (if_given Json parse_uuid truthy config.upstream_datasets)
            || any (names u) (if_given Json parse_uuid truthy config.expression_inputs)
            || any (names u) (
                dataset_values Json parse_uuid truthy
                  (if_given Json parse_uuid truthy config.sources)))
  unfolding build_dag_for_instance pipeline_upstreams
  build_dag-names session instance_id tenant_id pipeline_instance_id config dataset pipeline
        no_experiment u =
      rw (build_dag_for_instance, pipeline_upstreams, no_experiment, dataset, pipeline)
        (extract-names config u)
