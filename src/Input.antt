-- ===== src/Input.antt =====
-- The input of the adventure game, mp2/input.c.
pub mod Timer
pub mod Terminal
pub mod Keyboard
