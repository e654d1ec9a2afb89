-- ===== src/Web.antt =====
-- internal/web: the parts of the web server that keep state.

pub mod Hub
pub mod Log
pub mod Auth
pub mod Sources
pub mod Examples
