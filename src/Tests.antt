-- ===== src/Tests.antt =====
-- The theorems at concrete inputs, and runs of the definitions.
pub mod Fixtures
pub mod AutoUpdate
pub mod Backup
pub mod Deletion
pub mod Start
pub mod Intervals
pub mod Registry
pub mod SelfConfig
pub mod Reconcile
pub mod ConfigPatch
pub mod Enrich
pub mod Workspace
