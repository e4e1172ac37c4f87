-- ===== src/Orchestration.antt =====
-- The orchestration layer, libs/orchestration.
pub mod Lineage
pub mod StatusStore
pub mod Freshness
pub mod Local
pub mod Dag
pub mod RunService
pub mod Observers
