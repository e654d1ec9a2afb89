-- ===== src/Select/Degrade.antt =====
-- internal/scheduler/degrade.go: what may replace a degraded node, and when nothing is replaced.

pub mod Best
pub mod Swap
pub mod Idle
