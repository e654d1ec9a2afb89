-- ===== src/Select.antt =====
-- internal/select/select.go, and the bounded selections of internal/scheduler.

pub mod Defs
pub mod Groups
pub mod Stream
pub mod Degrade
mod Examples
