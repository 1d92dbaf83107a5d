-- ===== src/Scanner.antt =====
-- code-scanners/internal/controller: the controller of CodeScannerFossa resources.
mod Tests
pub mod Types
pub mod Invite
pub mod Membership
pub mod Conditions
pub mod Kube
pub mod Resource
pub mod Stages
pub mod Reconcile
