-- ===== src/Tux.antt =====
-- The Tux controller's driver, mp2/module.
pub mod Protocol
pub mod Ring
pub mod Framing
pub mod Driver
