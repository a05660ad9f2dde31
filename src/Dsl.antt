-- ===== src/Dsl.antt =====
-- internal/dsl: the pipeline of string operations.
pub mod Types
pub mod Ops
pub mod Pipeline
pub mod Parser
pub mod Json
