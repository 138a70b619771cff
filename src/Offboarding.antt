-- ===== src/Offboarding.antt =====
-- internal/offboarding/offboarding.go: the certificate of one person's offboarding, from what the
-- directory and the providers answer.
pub mod Inventory
pub mod Desired
pub mod Report
pub mod Proof
pub mod Parts
pub mod Observe
pub mod Laws
pub mod Complete
