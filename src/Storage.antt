-- ===== src/Storage.antt =====
-- internal/storage/postgres: the repositories, over the tables of migrations/0001_init.up.sql. A statement
-- runs whole or not at all; a lost connection is not modelled here (the services above are stated over
-- any repositories, failing ones among them).
pub mod Tables
pub mod Clusters
pub mod Elements
pub mod Rules
pub mod Jobs
pub mod WellFormed
pub mod ClusterNames
pub mod RuleRows
pub mod Assigning
