-- ===== src/Adventure.antt =====
-- The event loop of the adventure game, mp2/adventure.c.
pub mod View
pub mod Drawing
pub mod StatusBar
pub mod Clock
pub mod Parser
pub mod Sanity
pub mod Loop
pub mod Main
