-- ===== src/World/Commands.antt =====
-- The typed commands of mp2/world.c. `r` is the player's room, `*rptr`, and `arg` the words typed
-- after the verb.
mod Shop
mod Carry
mod Repair
mod Travel
pub mod Rules
pub mod Total
pub mod Standing
unfoldable pub use Shop.*
unfoldable pub use Carry.*
unfoldable pub use Repair.*
unfoldable pub use Travel.*
