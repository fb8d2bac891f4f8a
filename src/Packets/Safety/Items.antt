-- ===== src/Packets/Safety/Items.antt =====
-- cubic-server/protocol/ServerPackets.cpp: no parser reads past the buffer: containers, slots, books and recipes.
use cubic_server.Common.{refl, ◌==◌, []}
use cubic_server.Protocol.Pop.{
  pop_byte, pop_boolean, pop_short, pop_var_int, pop_string, pop_slot, pop_array,
}
use cubic_server.Protocol.Safety.{
  pop_array-StaysInBounds, pop_byte-StaysInBounds, pop_boolean-StaysInBounds,
  pop_short-StaysInBounds, pop_var_int-StaysInBounds, pop_string-StaysInBounds,
  pop_slot-StaysInBounds,
}
use cubic_server.Protocol.InBounds.{StaysInBounds, bind-StaysInBounds}
use cubic_server.Packets.Parsed.{parsed-Safe, Safe, optional, optional-StaysInBounds}
use cubic_server.Packets.Items.{
  pop_slot_with_index, parse_click_container_button, parse_click_container,
  parse_close_container_request, parse_edit_book, parse_pick_item, parse_place_recipe,
  parse_change_recipe_book_settings, parse_set_seen_recipe, parse_rename_item,
  parse_seen_advancements, parse_select_trade, parse_set_beacon_effect, parse_set_held_item,
  parse_set_creative_mode_slot,
}

pop_string_array-StaysInBounds : StaysInBounds (pop_array pop_string)
pop_string_array-StaysInBounds = pop_array-StaysInBounds pop_string pop_string-StaysInBounds

pop_slot_with_index-StaysInBounds : StaysInBounds pop_slot_with_index
unfolding pop_slot_with_index
pop_slot_with_index-StaysInBounds =
    bind-StaysInBounds pop_short _ pop_short-StaysInBounds
      (λ n. bind-StaysInBounds pop_slot _ pop_slot-StaysInBounds (λ s bs. ([], refl)))

pop_slots_with_index-StaysInBounds : StaysInBounds (pop_array pop_slot_with_index)
pop_slots_with_index-StaysInBounds =
    pop_array-StaysInBounds pop_slot_with_index pop_slot_with_index-StaysInBounds

pub parse_click_container_button-Safe : Safe parse_click_container_button
unfolding parse_click_container_button
parse_click_container_button-Safe = parsed-Safe _ (
    bind-StaysInBounds pop_byte _ pop_byte-StaysInBounds (λ window_id.
      bind-StaysInBounds pop_byte _ pop_byte-StaysInBounds (λ button_id. (λ bs. ([], refl)))))

pub parse_click_container-Safe : Safe parse_click_container
unfolding parse_click_container
parse_click_container-Safe = parsed-Safe _ (
    bind-StaysInBounds pop_byte _ pop_byte-StaysInBounds (λ window_id.
      bind-StaysInBounds pop_var_int _ pop_var_int-StaysInBounds (λ state_id.
        bind-StaysInBounds pop_short _ pop_short-StaysInBounds (λ slot.
          bind-StaysInBounds pop_byte _ pop_byte-StaysInBounds (λ button.
            bind-StaysInBounds pop_var_int _ pop_var_int-StaysInBounds (λ mode.
              bind-StaysInBounds (pop_array pop_slot_with_index) _
                pop_slots_with_index-StaysInBounds
                (λ array_of_slots.
                  bind-StaysInBounds pop_slot _ pop_slot-StaysInBounds
                    (λ carried_item. (λ bs. ([], refl))))))))))

pub parse_close_container_request-Safe : Safe parse_close_container_request
unfolding parse_close_container_request
parse_close_container_request-Safe =
    parsed-Safe _
      (bind-StaysInBounds pop_byte _ pop_byte-StaysInBounds (λ window_id. (λ bs. ([], refl))))

pub parse_edit_book-Safe : Safe parse_edit_book
unfolding parse_edit_book
parse_edit_book-Safe = parsed-Safe _ (
    bind-StaysInBounds pop_var_int _ pop_var_int-StaysInBounds (λ slot.
      bind-StaysInBounds (pop_array pop_string) _ pop_string_array-StaysInBounds (λ entries.
        bind-StaysInBounds pop_boolean _ pop_boolean-StaysInBounds (λ has_title.
          bind-StaysInBounds (optional has_title pop_string []) _
            (optional-StaysInBounds has_title pop_string [] pop_string-StaysInBounds)
            (λ title. (λ bs. ([], refl)))))))

pub parse_pick_item-Safe : Safe parse_pick_item
unfolding parse_pick_item
parse_pick_item-Safe =
    parsed-Safe _ (
      bind-StaysInBounds pop_var_int _ pop_var_int-StaysInBounds
        (λ slot_to_use. (λ bs. ([], refl))))

pub parse_place_recipe-Safe : Safe parse_place_recipe
unfolding parse_place_recipe
parse_place_recipe-Safe = parsed-Safe _ (
    bind-StaysInBounds pop_byte _ pop_byte-StaysInBounds (λ window_id.
      bind-StaysInBounds pop_string _ pop_string-StaysInBounds (λ recipe.
        bind-StaysInBounds pop_boolean _ pop_boolean-StaysInBounds
          (λ make_all. (λ bs. ([], refl))))))

pub parse_change_recipe_book_settings-Safe : Safe parse_change_recipe_book_settings
unfolding parse_change_recipe_book_settings
parse_change_recipe_book_settings-Safe = parsed-Safe _ (
    bind-StaysInBounds pop_var_int _ pop_var_int-StaysInBounds (λ book_id.
      bind-StaysInBounds pop_boolean _ pop_boolean-StaysInBounds (λ book_open.
        bind-StaysInBounds pop_boolean _ pop_boolean-StaysInBounds
          (λ filter_active. (λ bs. ([], refl))))))

pub parse_set_seen_recipe-Safe : Safe parse_set_seen_recipe
unfolding parse_set_seen_recipe
parse_set_seen_recipe-Safe =
    parsed-Safe _
      (bind-StaysInBounds pop_string _ pop_string-StaysInBounds (λ recipe_id. (λ bs. ([], refl))))

pub parse_rename_item-Safe : Safe parse_rename_item
unfolding parse_rename_item
parse_rename_item-Safe =
    parsed-Safe _
      (bind-StaysInBounds pop_string _ pop_string-StaysInBounds (λ item_name. (λ bs. ([], refl))))

pub parse_seen_advancements-Safe : Safe parse_seen_advancements
unfolding parse_seen_advancements
parse_seen_advancements-Safe = parsed-Safe _ (
    bind-StaysInBounds pop_var_int _ pop_var_int-StaysInBounds (λ action.
      bind-StaysInBounds (optional (action == 0) pop_string []) _
        (optional-StaysInBounds (action == 0) pop_string [] pop_string-StaysInBounds)
        (λ tab_id. (λ bs. ([], refl)))))

pub parse_select_trade-Safe : Safe parse_select_trade
unfolding parse_select_trade
parse_select_trade-Safe = parsed-Safe _ (
    bind-StaysInBounds pop_var_int _ pop_var_int-StaysInBounds
      (λ selected_slot. (λ bs. ([], refl))))

pub parse_set_beacon_effect-Safe : Safe parse_set_beacon_effect
unfolding parse_set_beacon_effect
parse_set_beacon_effect-Safe = parsed-Safe _ (
    bind-StaysInBounds pop_boolean _ pop_boolean-StaysInBounds (λ primary_effect_present.
      bind-StaysInBounds pop_var_int _ pop_var_int-StaysInBounds (λ primary_effect.
        bind-StaysInBounds pop_boolean _ pop_boolean-StaysInBounds (λ secondary_effect_present.
          bind-StaysInBounds pop_var_int _ pop_var_int-StaysInBounds
            (λ secondary_effect. (λ bs. ([], refl)))))))

pub parse_set_held_item-Safe : Safe parse_set_held_item
unfolding parse_set_held_item
parse_set_held_item-Safe =
    parsed-Safe _
      (bind-StaysInBounds pop_short _ pop_short-StaysInBounds (λ slot. (λ bs. ([], refl))))

pub parse_set_creative_mode_slot-Safe : Safe parse_set_creative_mode_slot
unfolding parse_set_creative_mode_slot
parse_set_creative_mode_slot-Safe = parsed-Safe _ (
    bind-StaysInBounds pop_short _ pop_short-StaysInBounds (λ slot.
      bind-StaysInBounds pop_slot _ pop_slot-StaysInBounds (λ clicked_item. (λ bs. ([], refl)))))
