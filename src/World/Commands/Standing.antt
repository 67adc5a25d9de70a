-- ===== src/World/Commands/Standing.antt =====
-- The commands of mp2/world.c that depend on where the player stands: `drop`, `get`, `inventory` and
-- the motions.
pub mod Motions
pub mod Drop
pub mod Get
pub mod Inventory
pub use Motions.{IsIn, try_to_move_left-Ends, try_to_move_right-Ends, try_to_enter-Ends}
pub use Drop.{typed_cmd_drop-Ends}
pub use Get.{typed_cmd_get-Ends}
pub use Inventory.{typed_cmd_inventory-Ends}
