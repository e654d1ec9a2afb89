-- ===== src/Filter.antt =====
-- internal/filter/filter.go: the passes that drop duplicate, broken, weak and dangerous nodes.
pub mod Defs
pub mod Servable
pub mod Passes
pub mod Distinct
mod Examples
