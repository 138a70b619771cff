-- ===== src/Store.antt =====
-- internal/store: the tables that carry unseat's state. A statement that fails leaves its table as
-- it was, so a table operation here is the effect of a statement that succeeds.
pub mod Pending
pub mod Decisions
