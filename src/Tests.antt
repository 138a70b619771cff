-- ===== src/Tests.antt =====
-- The theorems applied to concrete inputs, and runs of the model on them.
pub mod Fixtures
pub mod Planning
pub mod People
pub mod Money
pub mod Running
pub mod Network
pub mod Matching
pub mod Leaving
pub mod Stored
pub mod Scanning
pub mod Variables
