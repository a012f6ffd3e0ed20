-- ===== src/Kb/Laws.antt =====
-- What holds of the shell of the knowledge base, kb-src/kb-app.js.
pub mod Paging
pub mod Grouping
pub mod Routing
pub mod Ranking
pub mod Listing
pub mod Answers
pub mod Tags
