-- ===== src/Sync.antt =====
-- internal/sync/reconciler.go: the pass that brings every provider to the state the directory wants.
pub mod World
pub mod Actions
pub mod Expiry
pub mod Pass
pub mod Targets
pub mod Requests
pub mod Returned
pub mod DryRun
