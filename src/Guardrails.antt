-- ===== src/Guardrails.antt =====
-- The guardrails of optaic/guardrails.
pub mod Gate
