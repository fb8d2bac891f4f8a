-- ===== src/Packets/Items.antt =====
-- cubic-server/protocol/ServerPackets.hpp, ServerPackets.cpp: containers, slots, books and recipes. A text is the list of its
-- bytes, an enumeration its number, a float its bits.
use cubic_server.Common.{ℕ, Bool, ◌==◌, List, [], Result}
use cubic_server.Protocol.Types.{Slot}
use cubic_server.Protocol.Cursor.{Pop, pure, ◌>>=◌}
use cubic_server.Protocol.Pop.{
  pop_byte, pop_boolean, pop_short, pop_var_int, pop_string, pop_slot, pop_array,
}
use cubic_server.Packets.Parsed.{parsed, optional}

-- `ClickContainer::SlotWithIndex`
pub record SlotWithIndex : Type 0 where
  pub slot_number : ℕ
  pub slot_data : Slot

unfoldable pub pop_slot_with_index : Pop SlotWithIndex
pop_slot_with_index = do
  slot_number ← pop_short
  slot_data ← pop_slot
  pure (record { slot_number = slot_number; slot_data = slot_data })

pub record ClickContainerButton : Type 0 where
  pub window_id : ℕ
  pub button_id : ℕ

unfoldable pub parse_click_container_button : List ℕ → Result ClickContainerButton
parse_click_container_button = parsed (do
  window_id ← pop_byte
  button_id ← pop_byte
  pure (record { window_id = window_id; button_id = button_id }))

pub record ClickContainer : Type 0 where
  pub window_id : ℕ
  pub state_id : ℕ
  pub slot : ℕ
  pub button : ℕ
  pub mode : ℕ
  pub array_of_slots : List SlotWithIndex
  pub carried_item : Slot

unfoldable pub parse_click_container : List ℕ → Result ClickContainer
parse_click_container = parsed (do
  window_id ← pop_byte
  state_id ← pop_var_int
  slot ← pop_short
  button ← pop_byte
  mode ← pop_var_int
  array_of_slots ← pop_array pop_slot_with_index
  carried_item ← pop_slot
  pure (record {
    window_id = window_id;
    state_id = state_id;
    slot = slot;
    button = button;
    mode = mode;
    array_of_slots = array_of_slots;
    carried_item = carried_item;
  }))

pub record CloseContainerRequest : Type 0 where
  pub window_id : ℕ

unfoldable pub parse_close_container_request : List ℕ → Result CloseContainerRequest
parse_close_container_request =
    parsed (do window_id ← pop_byte; pure (record { window_id = window_id }))

pub record EditBook : Type 0 where
  pub slot : ℕ
  pub entries : List (List ℕ)
  pub has_title : Bool
  pub title : List ℕ

unfoldable pub parse_edit_book : List ℕ → Result EditBook
parse_edit_book = parsed (do
  slot ← pop_var_int
  entries ← pop_array pop_string
  has_title ← pop_boolean
  title ← optional has_title pop_string []
  pure (record { slot = slot; entries = entries; has_title = has_title; title = title }))

pub record PickItem : Type 0 where
  pub slot_to_use : ℕ

unfoldable pub parse_pick_item : List ℕ → Result PickItem
parse_pick_item = parsed (do slot_to_use ← pop_var_int; pure (record { slot_to_use = slot_to_use }))

pub record PlaceRecipe : Type 0 where
  pub window_id : ℕ
  pub recipe : List ℕ
  pub make_all : Bool

unfoldable pub parse_place_recipe : List ℕ → Result PlaceRecipe
parse_place_recipe = parsed (do
  window_id ← pop_byte
  recipe ← pop_string
  make_all ← pop_boolean
  pure (record { window_id = window_id; recipe = recipe; make_all = make_all }))

pub record ChangeRecipeBookSettings : Type 0 where
  pub book_id : ℕ
  pub book_open : Bool
  pub filter_active : Bool

unfoldable pub parse_change_recipe_book_settings : List ℕ → Result ChangeRecipeBookSettings
parse_change_recipe_book_settings = parsed (do
  book_id ← pop_var_int
  book_open ← pop_boolean
  filter_active ← pop_boolean
  pure (record { book_id = book_id; book_open = book_open; filter_active = filter_active }))

pub record SetSeenRecipe : Type 0 where
  pub recipe_id : List ℕ

unfoldable pub parse_set_seen_recipe : List ℕ → Result SetSeenRecipe
parse_set_seen_recipe = parsed (do recipe_id ← pop_string; pure (record { recipe_id = recipe_id }))

pub record RenameItem : Type 0 where
  pub item_name : List ℕ

unfoldable pub parse_rename_item : List ℕ → Result RenameItem
parse_rename_item = parsed (do item_name ← pop_string; pure (record { item_name = item_name }))

pub record SeenAdvancements : Type 0 where
  pub action : ℕ
  pub tab_id : List ℕ

unfoldable pub parse_seen_advancements : List ℕ → Result SeenAdvancements
parse_seen_advancements = parsed (do
  action ← pop_var_int
  tab_id ← optional (action == 0) pop_string []
  pure (record { action = action; tab_id = tab_id }))

pub record SelectTrade : Type 0 where
  pub selected_slot : ℕ

unfoldable pub parse_select_trade : List ℕ → Result SelectTrade
parse_select_trade =
    parsed (do selected_slot ← pop_var_int; pure (record { selected_slot = selected_slot }))

pub record SetBeaconEffect : Type 0 where
  pub primary_effect_present : Bool
  pub primary_effect : ℕ
  pub secondary_effect_present : Bool
  pub secondary_effect : ℕ

unfoldable pub parse_set_beacon_effect : List ℕ → Result SetBeaconEffect
parse_set_beacon_effect = parsed (do
  primary_effect_present ← pop_boolean
  primary_effect ← pop_var_int
  secondary_effect_present ← pop_boolean
  secondary_effect ← pop_var_int
  pure (record {
    primary_effect_present = primary_effect_present;
    primary_effect = primary_effect;
    secondary_effect_present = secondary_effect_present;
    secondary_effect = secondary_effect;
  }))

pub record SetHeldItem : Type 0 where
  pub slot : ℕ

unfoldable pub parse_set_held_item : List ℕ → Result SetHeldItem
parse_set_held_item = parsed (do slot ← pop_short; pure (record { slot = slot }))

pub record SetCreativeModeSlot : Type 0 where
  pub slot : ℕ
  pub clicked_item : Slot

unfoldable pub parse_set_creative_mode_slot : List ℕ → Result SetCreativeModeSlot
parse_set_creative_mode_slot = parsed (do
  slot ← pop_short
  clicked_item ← pop_slot
  pure (record { slot = slot; clicked_item = clicked_item }))
