-- ===== src/Scheduler.antt =====
-- internal/scheduler/scheduler.go: what the background loops do to the database and to the files.

pub mod World
pub mod Serve
pub mod Reconcile
pub mod Members
pub mod Cycle
pub mod Cache
pub mod Sources
pub mod Runs
pub mod Examples
