-- ===== src/Containers.antt =====
-- cubic-server/protocol/container: what a click does to a player's inventory.
pub mod Slots
pub mod Click
pub mod Drag
pub mod Stock
pub mod Conserve
pub mod Drops
pub mod Keys
pub mod Shift
pub mod ShiftClick
pub mod OnClick
pub mod Limits
mod Tests
