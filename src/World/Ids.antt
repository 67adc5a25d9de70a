-- ===== src/World/Ids.antt =====
-- The identifiers of mp2/world.c.
mod Rooms
mod Items
pub use Rooms.*
pub use Items.*
