-- ===== src/Packets/Framing.antt =====
-- cubic-server/protocol/ServerPackets.cpp: the wire format of a packet stands in front of what follows
-- it, field by field, so that it is the same bytes whatever follows.
use cubic_server.Common.{ℕ, ◌≡◌, refl, List, ◌++◌}
use cubic_server.Packets.Dispatch.{
  ServerPacket, handshake, status_request, ping_request, login_start, encryption_response,
  confirm_teleportation, query_block_entity_tag, change_difficulty, message_acknowledgement,
  chat_command, chat_message, client_command, client_information, command_suggestion_request,
  click_container_button, click_container, close_container_request, plugin_message, edit_book,
  query_entity_tag, interact, jigsaw_generate, keep_alive_response, lock_difficulty,
  set_player_position, set_player_position_and_rotation, set_player_rotation, set_player_on_ground,
  move_vehicle, paddle_boat, pick_item, place_recipe, player_abilities, player_action,
  player_command, player_input, pong, player_session, change_recipe_book_settings, set_seen_recipe,
  rename_item, resource_pack, seen_advancements, select_trade, set_beacon_effect, set_held_item,
  program_command_block, program_command_block_minecart, set_creative_mode_slot,
  program_jigsaw_block, program_structure_block, update_sign, swing_arm, teleport_to_entity,
  use_item_on, use_item,
}
use cubic_server.Packets.RoundTrip.Formats.{put_packet}
use cubic_server.Packets.Framing.Session.{
  handshake-Fronts, ping_request-Fronts, login_start-Fronts, encryption_response-Fronts,
  change_difficulty-Fronts, client_command-Fronts, client_information-Fronts, plugin_message-Fronts,
  keep_alive_response-Fronts, lock_difficulty-Fronts, pong-Fronts, player_session-Fronts,
  resource_pack-Fronts,
}
use cubic_server.Packets.Framing.Chat.{
  message_acknowledgement-Fronts, chat_command-Fronts, chat_message-Fronts,
  command_suggestion_request-Fronts,
}
use cubic_server.Packets.Framing.Items.{
  click_container_button-Fronts, click_container-Fronts, close_container_request-Fronts,
  edit_book-Fronts, pick_item-Fronts, place_recipe-Fronts, change_recipe_book_settings-Fronts,
  set_seen_recipe-Fronts, rename_item-Fronts, seen_advancements-Fronts, select_trade-Fronts,
  set_beacon_effect-Fronts, set_held_item-Fronts, set_creative_mode_slot-Fronts,
}
use cubic_server.Packets.Framing.Movement.{
  confirm_teleportation-Fronts, set_player_position-Fronts, set_player_position_and_rotation-Fronts,
  set_player_rotation-Fronts, set_player_on_ground-Fronts, move_vehicle-Fronts, paddle_boat-Fronts,
  player_abilities-Fronts, player_input-Fronts, teleport_to_entity-Fronts,
}
use cubic_server.Packets.Framing.Actions.{
  query_entity_tag-Fronts, interact-Fronts, player_action-Fronts, player_command-Fronts,
  swing_arm-Fronts, use_item_on-Fronts, use_item-Fronts,
}
use cubic_server.Packets.Framing.Blocks.{
  query_block_entity_tag-Fronts, jigsaw_generate-Fronts, program_command_block-Fronts,
  program_command_block_minecart-Fronts, program_jigsaw_block-Fronts,
  program_structure_block-Fronts, update_sign-Fronts,
}
mod Session
mod Chat
mod Items
mod Movement
mod Actions
mod Blocks

pub put_packet-append :
    (p : ServerPacket) (bs rest : List ℕ) → put_packet p bs ++ rest ≡ put_packet p (bs ++ rest)
put_packet-append (handshake p) bs rest = handshake-Fronts p bs rest
put_packet-append status_request bs rest = refl
put_packet-append (ping_request p) bs rest = ping_request-Fronts p bs rest
put_packet-append (login_start p) bs rest = login_start-Fronts p bs rest
put_packet-append (encryption_response p) bs rest = encryption_response-Fronts p bs rest
put_packet-append (confirm_teleportation p) bs rest = confirm_teleportation-Fronts p bs rest
put_packet-append (query_block_entity_tag p) bs rest = query_block_entity_tag-Fronts p bs rest
put_packet-append (change_difficulty p) bs rest = change_difficulty-Fronts p bs rest
put_packet-append (message_acknowledgement p) bs rest = message_acknowledgement-Fronts p bs rest
put_packet-append (chat_command p) bs rest = chat_command-Fronts p bs rest
put_packet-append (chat_message p) bs rest = chat_message-Fronts p bs rest
put_packet-append (client_command p) bs rest = client_command-Fronts p bs rest
put_packet-append (client_information p) bs rest = client_information-Fronts p bs rest
put_packet-append (command_suggestion_request p) bs rest =
    command_suggestion_request-Fronts p bs rest
put_packet-append (click_container_button p) bs rest = click_container_button-Fronts p bs rest
put_packet-append (click_container p) bs rest = click_container-Fronts p bs rest
put_packet-append (close_container_request p) bs rest = close_container_request-Fronts p bs rest
put_packet-append (plugin_message p) bs rest = plugin_message-Fronts p bs rest
put_packet-append (edit_book p) bs rest = edit_book-Fronts p bs rest
put_packet-append (query_entity_tag p) bs rest = query_entity_tag-Fronts p bs rest
put_packet-append (interact p) bs rest = interact-Fronts p bs rest
put_packet-append (jigsaw_generate p) bs rest = jigsaw_generate-Fronts p bs rest
put_packet-append (keep_alive_response p) bs rest = keep_alive_response-Fronts p bs rest
put_packet-append (lock_difficulty p) bs rest = lock_difficulty-Fronts p bs rest
put_packet-append (set_player_position p) bs rest = set_player_position-Fronts p bs rest
put_packet-append (set_player_position_and_rotation p) bs rest =
    set_player_position_and_rotation-Fronts p bs rest
put_packet-append (set_player_rotation p) bs rest = set_player_rotation-Fronts p bs rest
put_packet-append (set_player_on_ground p) bs rest = set_player_on_ground-Fronts p bs rest
put_packet-append (move_vehicle p) bs rest = move_vehicle-Fronts p bs rest
put_packet-append (paddle_boat p) bs rest = paddle_boat-Fronts p bs rest
put_packet-append (pick_item p) bs rest = pick_item-Fronts p bs rest
put_packet-append (place_recipe p) bs rest = place_recipe-Fronts p bs rest
put_packet-append (player_abilities p) bs rest = player_abilities-Fronts p bs rest
put_packet-append (player_action p) bs rest = player_action-Fronts p bs rest
put_packet-append (player_command p) bs rest = player_command-Fronts p bs rest
put_packet-append (player_input p) bs rest = player_input-Fronts p bs rest
put_packet-append (pong p) bs rest = pong-Fronts p bs rest
put_packet-append (player_session p) bs rest = player_session-Fronts p bs rest
put_packet-append (change_recipe_book_settings p) bs rest =
    change_recipe_book_settings-Fronts p bs rest
put_packet-append (set_seen_recipe p) bs rest = set_seen_recipe-Fronts p bs rest
put_packet-append (rename_item p) bs rest = rename_item-Fronts p bs rest
put_packet-append (resource_pack p) bs rest = resource_pack-Fronts p bs rest
put_packet-append (seen_advancements p) bs rest = seen_advancements-Fronts p bs rest
put_packet-append (select_trade p) bs rest = select_trade-Fronts p bs rest
put_packet-append (set_beacon_effect p) bs rest = set_beacon_effect-Fronts p bs rest
put_packet-append (set_held_item p) bs rest = set_held_item-Fronts p bs rest
put_packet-append (program_command_block p) bs rest = program_command_block-Fronts p bs rest
put_packet-append (program_command_block_minecart p) bs rest =
    program_command_block_minecart-Fronts p bs rest
put_packet-append (set_creative_mode_slot p) bs rest = set_creative_mode_slot-Fronts p bs rest
put_packet-append (program_jigsaw_block p) bs rest = program_jigsaw_block-Fronts p bs rest
put_packet-append (program_structure_block p) bs rest = program_structure_block-Fronts p bs rest
put_packet-append (update_sign p) bs rest = update_sign-Fronts p bs rest
put_packet-append (swing_arm p) bs rest = swing_arm-Fronts p bs rest
put_packet-append (teleport_to_entity p) bs rest = teleport_to_entity-Fronts p bs rest
put_packet-append (use_item_on p) bs rest = use_item_on-Fronts p bs rest
put_packet-append (use_item p) bs rest = use_item-Fronts p bs rest
