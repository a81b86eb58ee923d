-- ===== src/Examples.antt =====
-- The theorems at concrete inputs, over the numbers of Double/Fixed.
pub mod Velocity
pub mod Goals
pub mod Poses
pub mod Starts
pub mod Floor
pub mod Plans
pub mod Clouds
pub mod Maps
pub mod Bridges
