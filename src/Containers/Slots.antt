-- ===== src/Containers/Slots.antt =====
-- cubic-server/protocol/container/Container.hpp, Inventory.hpp, Inventory.cpp: the slots of a player's
-- inventory, and which of them an index stands for. An int16_t is its bit pattern.
use cubic_server.Common.{
  ℕ, ◌+◌, ◌-◌, ◌^◌, false, List, get_or, set, replicate, if◌then◌else◌, ltb, leb, ◌==◌, Result, ok,
  err, out_of_range,
}
use cubic_server.Protocol.Types.{Slot}

-- `protocol::container::State`
pub data State : Type 0 where
  normal left_drag right_drag middle_drag : State

-- The slots of Inventory, and the cursor and state of Container.
pub record Inventory : Type 0 where
  pub cursor : Slot
  pub state : State
  pub crafting_grid : List Slot
  pub armor : List Slot
  pub player_inventory : List Slot
  pub hotbar : List Slot
  pub offhand : Slot

abbrev pub empty_slot : Slot
empty_slot = record { present = false; item_id = 0; item_count = 0 }

abbrev pub new_inventory : Inventory
new_inventory = record {
  cursor = empty_slot;
  state = normal;
  crafting_grid = replicate 5 empty_slot;
  armor = replicate 4 empty_slot;
  player_inventory = replicate 27 empty_slot;
  hotbar = replicate 9 empty_slot;
  offhand = empty_slot;
}

-- What a reference to a slot refers to.
pub data Place : Type 0 where
  in_cursor in_offhand : Place
  in_crafting_grid in_armor in_player_inventory in_hotbar : ℕ → Place

-- `std::array::at` of an array of n elements, with an index as a size_t.
abbrev pub array_at : ℕ → (ℕ → Place) → ℕ → Result Place
array_at n place i = if ltb i n then ok (place i) else err out_of_range

-- A negative index is below 5, and is huge as a size_t.
unfoldable pub at : ℕ → Result Place
at index =
    if index == 0xffff
    then ok in_cursor
    else if leb (2 ^ 15) index
    then err out_of_range
    else if ltb index 5
    then array_at 5 in_crafting_grid index
    else if ltb index 9
    then array_at 4 in_armor (index - 5)
    else if ltb index 36
    then array_at 27 in_player_inventory (index - 9)
    else if ltb index 45
    then array_at 9 in_hotbar (index - 36)
    else if index == 45
    then ok in_offhand
    else err out_of_range

unfoldable pub read : Inventory → Place → Slot
read inv in_cursor = inv.cursor
read inv in_offhand = inv.offhand
read inv (in_crafting_grid i) = get_or inv.crafting_grid i empty_slot
read inv (in_armor i) = get_or inv.armor i empty_slot
read inv (in_player_inventory i) = get_or inv.player_inventory i empty_slot
read inv (in_hotbar i) = get_or inv.hotbar i empty_slot

unfoldable pub write : Inventory → Place → Slot → Inventory
write inv in_cursor s = record inv { cursor = s }
write inv in_offhand s = record inv { offhand = s }
write inv (in_crafting_grid i) s = record inv { crafting_grid = set inv.crafting_grid i s }
write inv (in_armor i) s = record inv { armor = set inv.armor i s }
write inv (in_player_inventory i) s = record inv { player_inventory = set inv.player_inventory i s }
write inv (in_hotbar i) s = record inv { hotbar = set inv.hotbar i s }

-- `size()`
abbrev pub size : ℕ
size = 27 + 9 + 4 + 5 + 1
