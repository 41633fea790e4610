-- ===== src/Sides.antt =====
-- The side regions of a drawing and the keys of its match file (app/side_regions.py).
pub mod Texts
pub mod Keys
pub mod Views
pub mod Groups
pub mod Counting
pub mod Placing
pub mod Split
pub mod Contained
pub mod Search
pub mod Suppress
mod Samples
