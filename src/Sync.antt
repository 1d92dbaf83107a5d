-- ===== src/Sync.antt =====
-- cmd/sync/main.go: the copy of the register into the cluster's resources.
mod Tests
pub mod Names
pub mod Rows
pub mod Specs
pub mod Kinds
