-- ===== src/Kb.antt =====
-- The shell of the knowledge base: kb-src/kb-app.js.
pub mod Page
pub mod Nav
pub mod Pager
pub mod Route
pub mod Search
pub mod Box
pub mod Markup
pub mod Laws
mod Tests
