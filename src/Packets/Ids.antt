-- ===== src/Packets/Ids.antt =====
-- cubic-server/protocol/ServerPackets.hpp: the id of every packet and the state that it is sent in.
use cubic_server.Common.{ℕ, ◌^◌, ◌<◌, arith}
use cubic_server.Packets.Dispatch.{
  ClientStatus, initial, status, login, play, ServerPacket, handshake, status_request, ping_request,
  login_start, encryption_response, confirm_teleportation, query_block_entity_tag,
  change_difficulty, message_acknowledgement, chat_command, chat_message, client_command,
  client_information, command_suggestion_request, click_container_button, click_container,
  close_container_request, plugin_message, edit_book, query_entity_tag, interact, jigsaw_generate,
  keep_alive_response, lock_difficulty, set_player_position, set_player_position_and_rotation,
  set_player_rotation, set_player_on_ground, move_vehicle, paddle_boat, pick_item, place_recipe,
  player_abilities, player_action, player_command, player_input, pong, player_session,
  change_recipe_book_settings, set_seen_recipe, rename_item, resource_pack, seen_advancements,
  select_trade, set_beacon_effect, set_held_item, program_command_block,
  program_command_block_minecart, set_creative_mode_slot, program_jigsaw_block,
  program_structure_block, update_sign, swing_arm, teleport_to_entity, use_item_on, use_item,
}

abbrev pub status_of : ServerPacket → ClientStatus
status_of (handshake p) = initial
status_of status_request = status
status_of (ping_request p) = status
status_of (login_start p) = login
status_of (encryption_response p) = login
status_of _ = play

abbrev pub packet_id : ServerPacket → ℕ
packet_id (handshake p) = 0x00
packet_id status_request = 0x00
packet_id (ping_request p) = 0x01
packet_id (login_start p) = 0x00
packet_id (encryption_response p) = 0x01
packet_id (confirm_teleportation p) = 0x00
packet_id (query_block_entity_tag p) = 0x01
packet_id (change_difficulty p) = 0x02
packet_id (message_acknowledgement p) = 0x03
packet_id (chat_command p) = 0x04
packet_id (chat_message p) = 0x05
packet_id (client_command p) = 0x06
packet_id (client_information p) = 0x07
packet_id (command_suggestion_request p) = 0x08
packet_id (click_container_button p) = 0x09
packet_id (click_container p) = 0x0a
packet_id (close_container_request p) = 0x0b
packet_id (plugin_message p) = 0x0c
packet_id (edit_book p) = 0x0d
packet_id (query_entity_tag p) = 0x0e
packet_id (interact p) = 0x0f
packet_id (jigsaw_generate p) = 0x10
packet_id (keep_alive_response p) = 0x11
packet_id (lock_difficulty p) = 0x12
packet_id (set_player_position p) = 0x13
packet_id (set_player_position_and_rotation p) = 0x14
packet_id (set_player_rotation p) = 0x15
packet_id (set_player_on_ground p) = 0x16
packet_id (move_vehicle p) = 0x17
packet_id (paddle_boat p) = 0x18
packet_id (pick_item p) = 0x19
packet_id (place_recipe p) = 0x1a
packet_id (player_abilities p) = 0x1b
packet_id (player_action p) = 0x1c
packet_id (player_command p) = 0x1d
packet_id (player_input p) = 0x1e
packet_id (pong p) = 0x1f
packet_id (player_session p) = 0x20
packet_id (change_recipe_book_settings p) = 0x21
packet_id (set_seen_recipe p) = 0x22
packet_id (rename_item p) = 0x23
packet_id (resource_pack p) = 0x24
packet_id (seen_advancements p) = 0x25
packet_id (select_trade p) = 0x26
packet_id (set_beacon_effect p) = 0x27
packet_id (set_held_item p) = 0x28
packet_id (program_command_block p) = 0x29
packet_id (program_command_block_minecart p) = 0x2a
packet_id (set_creative_mode_slot p) = 0x2b
packet_id (program_jigsaw_block p) = 0x2c
packet_id (program_structure_block p) = 0x2d
packet_id (update_sign p) = 0x2e
packet_id (swing_arm p) = 0x2f
packet_id (teleport_to_entity p) = 0x30
packet_id (use_item_on p) = 0x31
packet_id (use_item p) = 0x32

pub packet_id_small : (p : ServerPacket) → packet_id p < 2 ^ 32
packet_id_small (handshake p) = omega arith
packet_id_small status_request = omega arith
packet_id_small (ping_request p) = omega arith
packet_id_small (login_start p) = omega arith
packet_id_small (encryption_response p) = omega arith
packet_id_small (confirm_teleportation p) = omega arith
packet_id_small (query_block_entity_tag p) = omega arith
packet_id_small (change_difficulty p) = omega arith
packet_id_small (message_acknowledgement p) = omega arith
packet_id_small (chat_command p) = omega arith
packet_id_small (chat_message p) = omega arith
packet_id_small (client_command p) = omega arith
packet_id_small (client_information p) = omega arith
packet_id_small (command_suggestion_request p) = omega arith
packet_id_small (click_container_button p) = omega arith
packet_id_small (click_container p) = omega arith
packet_id_small (close_container_request p) = omega arith
packet_id_small (plugin_message p) = omega arith
packet_id_small (edit_book p) = omega arith
packet_id_small (query_entity_tag p) = omega arith
packet_id_small (interact p) = omega arith
packet_id_small (jigsaw_generate p) = omega arith
packet_id_small (keep_alive_response p) = omega arith
packet_id_small (lock_difficulty p) = omega arith
packet_id_small (set_player_position p) = omega arith
packet_id_small (set_player_position_and_rotation p) = omega arith
packet_id_small (set_player_rotation p) = omega arith
packet_id_small (set_player_on_ground p) = omega arith
packet_id_small (move_vehicle p) = omega arith
packet_id_small (paddle_boat p) = omega arith
packet_id_small (pick_item p) = omega arith
packet_id_small (place_recipe p) = omega arith
packet_id_small (player_abilities p) = omega arith
packet_id_small (player_action p) = omega arith
packet_id_small (player_command p) = omega arith
packet_id_small (player_input p) = omega arith
packet_id_small (pong p) = omega arith
packet_id_small (player_session p) = omega arith
packet_id_small (change_recipe_book_settings p) = omega arith
packet_id_small (set_seen_recipe p) = omega arith
packet_id_small (rename_item p) = omega arith
packet_id_small (resource_pack p) = omega arith
packet_id_small (seen_advancements p) = omega arith
packet_id_small (select_trade p) = omega arith
packet_id_small (set_beacon_effect p) = omega arith
packet_id_small (set_held_item p) = omega arith
packet_id_small (program_command_block p) = omega arith
packet_id_small (program_command_block_minecart p) = omega arith
packet_id_small (set_creative_mode_slot p) = omega arith
packet_id_small (program_jigsaw_block p) = omega arith
packet_id_small (program_structure_block p) = omega arith
packet_id_small (update_sign p) = omega arith
packet_id_small (swing_arm p) = omega arith
packet_id_small (teleport_to_entity p) = omega arith
packet_id_small (use_item_on p) = omega arith
packet_id_small (use_item p) = omega arith
