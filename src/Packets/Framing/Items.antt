-- ===== src/Packets/Framing/Items.antt =====
-- cubic-server/protocol/ServerPackets.cpp: the packets about containers and items in the wire format stand in
-- front of what follows them.
use cubic_server.Common.{refl, ap, ◌∙◌, append_assoc, ◌==◌}
use cubic_server.Packets.Wire.{put_byte, put_boolean, put_short, put_var_int, put_string, put_array}
use cubic_server.Packets.RoundTrip.Items.{
  put_slot_with_index, put_slots_with_index, put_click_container_button, put_click_container,
  put_close_container_request, put_edit_book, put_pick_item, put_set_held_item,
  put_set_creative_mode_slot,
}
use cubic_server.Packets.RoundTrip.Recipes.{
  put_place_recipe, put_change_recipe_book_settings, put_set_seen_recipe, put_rename_item,
  put_seen_advancements, put_select_trade, put_set_beacon_effect,
}
use cubic_server.Packets.Fronts.{Fronts, array-Fronts, optional-Fronts, string-Fronts}

slot_with_index-Fronts : Fronts put_slot_with_index
slot_with_index-Fronts a bs rest = simp (append_assoc)

pub click_container_button-Fronts : Fronts put_click_container_button
click_container_button-Fronts p bs rest = ap (put_byte p.window_id) (refl)

pub click_container-Fronts : Fronts put_click_container
click_container-Fronts p bs rest = ap (put_byte p.window_id) (
    append_assoc _ _ rest
    ∙ ap (put_var_int p.state_id) (
        append_assoc _ _ rest
        ∙ ap (put_short p.slot) (
            ap (put_byte p.button) (
              append_assoc _ _ rest
              ∙ ap (put_var_int p.mode) (
                  array-Fronts put_slot_with_index slot_with_index-Fronts p.array_of_slots _ rest
                  ∙ ap (put_slots_with_index p.array_of_slots) (append_assoc _ _ rest))))))

pub close_container_request-Fronts : Fronts put_close_container_request
close_container_request-Fronts p bs rest = refl

pub edit_book-Fronts : Fronts put_edit_book
edit_book-Fronts p bs rest =
    append_assoc _ _ rest
    ∙ ap (put_var_int p.slot) (
        array-Fronts put_string string-Fronts p.entries _ rest
        ∙ ap (put_array put_string p.entries) (
            append_assoc _ _ rest
            ∙ ap (put_boolean p.has_title) (
                optional-Fronts p.has_title put_string (λ v b r. append_assoc _ b r) p.title _
                  rest)))

pub pick_item-Fronts : Fronts put_pick_item
pick_item-Fronts p bs rest = append_assoc _ _ rest

pub place_recipe-Fronts : Fronts put_place_recipe
place_recipe-Fronts p bs rest =
    ap (put_byte p.window_id)
      (append_assoc _ _ rest ∙ ap (put_string p.recipe) (append_assoc _ _ rest))

pub change_recipe_book_settings-Fronts : Fronts put_change_recipe_book_settings
change_recipe_book_settings-Fronts p bs rest =
    append_assoc _ _ rest
    ∙ ap (put_var_int p.book_id)
        (append_assoc _ _ rest ∙ ap (put_boolean p.book_open) (append_assoc _ _ rest))

pub set_seen_recipe-Fronts : Fronts put_set_seen_recipe
set_seen_recipe-Fronts p bs rest = append_assoc _ _ rest

pub rename_item-Fronts : Fronts put_rename_item
rename_item-Fronts p bs rest = append_assoc _ _ rest

pub seen_advancements-Fronts : Fronts put_seen_advancements
seen_advancements-Fronts p bs rest =
    append_assoc _ _ rest
    ∙ ap (put_var_int p.action)
        (optional-Fronts (p.action == 0) put_string (λ v b r. append_assoc _ b r) p.tab_id _ rest)

pub select_trade-Fronts : Fronts put_select_trade
select_trade-Fronts p bs rest = append_assoc _ _ rest

pub set_beacon_effect-Fronts : Fronts put_set_beacon_effect
set_beacon_effect-Fronts p bs rest =
    append_assoc _ _ rest
    ∙ ap (put_boolean p.primary_effect_present) (
        append_assoc _ _ rest
        ∙ ap (put_var_int p.primary_effect) (
            append_assoc _ _ rest
            ∙ ap (put_boolean p.secondary_effect_present) (append_assoc _ _ rest)))

pub set_held_item-Fronts : Fronts put_set_held_item
set_held_item-Fronts p bs rest = append_assoc _ _ rest

pub set_creative_mode_slot-Fronts : Fronts put_set_creative_mode_slot
set_creative_mode_slot-Fronts p bs rest =
    append_assoc _ _ rest ∙ ap (put_short p.slot) (append_assoc _ _ rest)
