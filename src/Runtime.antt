-- ===== src/Runtime.antt =====
-- The services that run beside the program, of optaic/runtime.
pub mod Ports
