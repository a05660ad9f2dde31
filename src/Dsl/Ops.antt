-- ===== src/Dsl/Ops.antt =====
-- internal/dsl/ops.go: the operations and their registry.
pub mod Args
pub mod Pad
pub mod Registry
