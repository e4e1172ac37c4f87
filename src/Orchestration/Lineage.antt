-- ===== src/Orchestration/Lineage.antt =====
-- libs/orchestration/lineage.py, by the tasks of its class `LineageResolver`.
pub mod Table
pub mod Traversal
pub mod Schedule
pub mod Propagation
pub mod Edges
