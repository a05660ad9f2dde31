-- ===== src/Discovery.antt =====
-- internal/discovery: the targets of a scan and the scan.
pub mod Targets
pub mod Orchestrator
