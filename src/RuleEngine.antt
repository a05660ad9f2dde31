-- ===== src/RuleEngine.antt =====
-- internal/ruleengine: from a hostname and an ordered list of rules to a cluster key.
pub mod Template
pub mod Evaluate
pub mod Validate
