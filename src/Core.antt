-- ===== src/Core.antt =====
-- internal/core: the data model and the decisions that unseat derives from it.
pub mod Objects
pub mod Types
pub mod Diff
pub mod Alias
pub mod Scan
pub mod Seats
pub mod Engine
pub mod Matrix
pub mod Identity
pub mod Correlate
pub mod Suggest
pub mod Ghosts
pub mod Credentials
pub mod Billing
pub mod Decisions
pub mod Evidence
pub mod Certificate
