-- ===== src/Lib.antt =====
-- A verification library for the OptAIC trading platform: the logic of its orchestration, of its
-- governance rules and of its runtime, written out from the Python sources.
--
-- Parts and files
--   Prelude: tests, lists, equality, results and dictionaries that the other modules share.
--   Database: the order in which the database returns selected rows, a parameter.
--   Calendar: the dates of Python's datetime that the sources use, as ordinals.
--   Orchestration/Lineage: the class LineageResolver (libs/orchestration/lineage.py) over the table
--     dataset_lineage (libs/db/models/quant.py). Traversal is the search up and down the table,
--     Schedule is get_execution_order, Propagation is propagate_staleness and the cached statuses of
--     upstream resources, Edges is what writes lineage rows and subscriptions.
--   Orchestration/StatusStore: the class StatusStore (libs/orchestration/status_store.py).
--   Orchestration/Freshness: UpdateFrequency and FreshnessChecker (libs/orchestration/freshness.py);
--     Composite also holds check_upstream_freshness of lineage.py, which asks the checker about each
--     resource that the search finds.
--   Orchestration/Dag: DependencyGraph and build_graph (libs/orchestration/dag.py), which crawls the
--     same lineage table and reads the status store.
--   Orchestration/Local: a run of LocalOrchestrator (libs/orchestration/local.py), which executes the
--     batches of such a graph, as a step relation with cancellations in between.
--   Orchestration/RunService: polling and cancellation of runs by RunExecutionService
--     (libs/orchestration/run_service.py), over an orchestrator's interface, which Backend fills with
--     the local orchestrator; the end of a run goes to the status store.
--   Orchestration/Observers: LineageObserver (libs/orchestration/observers.py), which queries the lineage
--     table and updates the cached statuses of Lineage/Propagation; Batch is the query for the datasets
--     that can be refreshed together.
--   Core/ResourceTypes: the registry of libs/core/resource_types.py.
--   Core/Access: authorize_casbin and its adapter (libs/core/rbac_casbin), over the tables of
--     libs/db/models/rbac.py.
--   Core/Governance: the class GovernanceService (libs/core/governance.py) over the tables of
--     libs/db/models. Transfers is the workflow of transfer requests, Copies holds copies, branches
--     and merges, Promotion the promotion to a team and its approval, Templates the RBAC templates,
--     History the search for a resource's lineage. Service puts the operations together as commands,
--     each in a session that is committed or rolled back as the routers do it.
--   Guardrails/Gate: validate_at_gate with its policy and the contract registry (optaic/guardrails).
--   Runtime/Ports: PortManager (optaic/runtime/ports.py).
--
-- How state and operations correspond
--   An operation is a function of the same name. State that the source keeps in a table or an object
--   is an argument and a result; an exception is a value of a result type. Identifiers and names that
--   the source compares and uses as keys are numbers. Dates are ordinals, and the clock and the
--   sockets are parameters. A session does not flush before a query (libs/db/session.py): Edges keeps
--   what was added apart from the tables until the flush, and Propagation works on the objects that the
--   session holds, with what a flush writes of them beside it. A port is a number, and one above 65535
--   raises.
--
-- Bounds and fuel
--   The searches of Traversal run on one unit of fuel for each row of the table and one more: each row
--   is put on the queue at most once. The rounds of Schedule run on one unit for each resource: a
--   round retires at least one. Both are enough. The loop over a weekend runs on three.
--   The loop over the parents of a resource runs on fuel, one unit for each resource of the chain; the
--   source does not test for a circle of parents.
--   The search of History runs on one unit for each edge and one more, by the same count.
--   The crawl of build_graph is a recursion on the depth that is left, as the source bounds it.
--
-- What is not modelled
--   SQLAlchemy and the database, but for the rows a query returns, the foreign keys that the flush of
--   Edges checks, and the comparison by which a flush leaves a column out; logging; the execution of nodes by
--   the pipeline registry, and graphlib; the casbin enforcer, whose matcher is a hypothesis on its
--   answer; the routers, SDKs, web application, worker and scripts, which call the services that are
--   modelled.
pub mod Calendar
pub mod Core
pub mod Database
pub mod Guardrails
pub mod Orchestration
pub mod Prelude
pub mod Runtime
