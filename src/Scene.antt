-- ===== src/Scene.antt =====
-- The 3D walkthroughs of the knowledge base: kb-src/scenes-engine.js and kb-src/scenes-data.js.
pub mod Def
pub mod Data
pub mod View
pub mod Settle
pub mod Moves
pub mod Frame
pub mod Input
pub mod Mount
pub mod Dom
pub mod Laws
mod Tests
