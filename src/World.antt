-- ===== src/World.antt =====
-- The world of the adventure game, mp2/world.c.
pub mod Ids
pub mod State
pub mod Access
pub mod Objects
pub mod Validity
pub mod Motion
pub mod Commands
pub mod Game
pub mod Build
