-- ===== src/Scene/Laws.antt =====
-- What holds of the walkthrough engine of kb-src/scenes-engine.js.
pub mod After
pub mod Chain
pub mod Sound
pub mod Starting
pub mod Jumping
pub mod Running
pub mod Safety
pub mod Stall
pub mod Shipped
pub mod Mounting
pub mod Steady
pub mod Shown
pub mod Showing
pub mod Displays
pub mod Due
pub mod Ending
pub mod Waiting
pub mod LocalSteps
pub mod Slides
pub mod Playing
pub mod SlideShow
pub mod Dom
