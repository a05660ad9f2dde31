-- ===== src/Tests.antt =====
-- Tests of the definitions, and the theorems applied at concrete inputs.
pub mod Ascii
mod Dsl
pub mod RuleEngine
pub mod Discovery
pub mod Storage
pub mod Outside
pub mod Api
pub mod Snmp
pub mod Service
mod Scanning
mod Server
