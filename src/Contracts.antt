-- ===== src/Contracts.antt =====
-- kernel/contracts: the contract layer.
pub mod Diagnostics
pub mod Paths
pub mod Refs
pub mod Json
pub mod Digest
pub mod Types
pub mod Authority
pub mod Evidence
pub mod Identity
pub mod Checks
pub mod Context
pub mod Materialization
pub mod Decisions
pub mod Baseline
pub mod System
pub mod Change
pub mod Domain
pub mod Versioning
pub mod Tests
