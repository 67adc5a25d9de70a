-- ===== src/Examples.antt =====
-- Runs of the program at concrete inputs.
pub mod Rooms
pub mod Pictures
pub mod Controller
pub mod Player
