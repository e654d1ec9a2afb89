-- ===== src/State.antt =====
-- internal/state/state.go: the database, one record with a list of rows for each table. A statement
-- of SQL is a function on it, and an error is only what the code reports of a missing row or value:
-- failures of SQLite itself are not modelled.

pub mod Tables
pub mod Nodes
pub mod Results
pub mod Subscription
pub mod Retention
pub mod Queries
pub mod Examples
