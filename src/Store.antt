-- ===== src/Store.antt =====
-- src/fronta/store.py with its SQL (complete.sql, claim.sql, schema.sql): the tables, and one
-- function for each statement. A statement takes the transaction's `now()` as an argument.
pub mod Row
pub mod Tables
pub mod Enqueue
pub mod Attempts
pub mod Claim
pub mod Control
pub mod Types
pub mod History
pub mod Examples
