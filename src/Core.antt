-- ===== src/Core.antt =====
-- The rules of libs/core.
pub mod ResourceTypes
pub mod Access
pub mod Governance
