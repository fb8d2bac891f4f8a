-- ===== src/Packets/RoundTrip/Formats.antt =====
-- cubic-server/protocol/ServerPackets.hpp: the wire format of every packet, and what fits it.
use cubic_server.Common.{ℕ, List}
use cubic_server.Packets.Dispatch.{
  ServerPacket, handshake, status_request, ping_request, login_start, encryption_response,
  confirm_teleportation, query_block_entity_tag, change_difficulty, message_acknowledgement,
  chat_command, chat_message, client_command, client_information, command_suggestion_request,
  click_container_button, click_container, close_container_request, plugin_message, edit_book,
  query_entity_tag, interact, jigsaw_generate, keep_alive_response, lock_difficulty,
  set_player_position, set_player_position_and_rotation, set_player_rotation, set_player_on_ground,
  move_vehicle, paddle_boat, pick_item, place_recipe, player_abilities, player_action,
  player_command, player_input, pong, player_session, change_recipe_book_settings, set_seen_recipe,
  rename_item, resource_pack, seen_advancements, select_trade, set_beacon_effect, set_held_item,
  program_command_block, program_command_block_minecart, set_creative_mode_slot,
  program_jigsaw_block, program_structure_block, update_sign, swing_arm, teleport_to_entity,
  use_item_on, use_item,
}
use cubic_server.Packets.RoundTrip.Session.{
  put_handshake, FitsHandshake, put_ping_request, FitsPingRequest, put_login_start, FitsLoginStart,
  put_encryption_response, FitsEncryptionResponse, put_change_difficulty, put_client_command,
  FitsClientCommand, put_client_information, FitsClientInformation, put_plugin_message,
  FitsPluginMessage, put_keep_alive_response, FitsKeepAliveResponse, put_lock_difficulty, put_pong,
  FitsPong, put_player_session, FitsPlayerSession, put_resource_pack, FitsResourcePack,
}
use cubic_server.Packets.RoundTrip.Chat.{
  put_message_acknowledgement, FitsMessageAcknowledgement, put_chat_command, FitsChatCommand,
  put_chat_message, FitsChatMessage, put_command_suggestion_request, FitsCommandSuggestionRequest,
}
use cubic_server.Packets.RoundTrip.Items.{
  put_click_container_button, put_click_container, FitsClickContainer, put_close_container_request,
  put_edit_book, FitsEditBook, put_pick_item, FitsPickItem, put_set_held_item, FitsSetHeldItem,
  put_set_creative_mode_slot, FitsSetCreativeModeSlot,
}
use cubic_server.Packets.RoundTrip.Recipes.{
  put_place_recipe, FitsPlaceRecipe, put_change_recipe_book_settings, FitsChangeRecipeBookSettings,
  put_set_seen_recipe, FitsSetSeenRecipe, put_rename_item, FitsRenameItem, put_seen_advancements,
  FitsSeenAdvancements, put_select_trade, FitsSelectTrade, put_set_beacon_effect,
  FitsSetBeaconEffect,
}
use cubic_server.Packets.RoundTrip.Movement.{
  put_confirm_teleportation, FitsConfirmTeleportation, put_set_player_position,
  FitsSetPlayerPosition, put_set_player_position_and_rotation, FitsSetPlayerPositionAndRotation,
  put_set_player_rotation, FitsSetPlayerRotation, put_set_player_on_ground, put_move_vehicle,
  FitsMoveVehicle, put_paddle_boat, put_player_abilities, put_player_input, FitsPlayerInput,
  put_teleport_to_entity, FitsTeleportToEntity,
}
use cubic_server.Packets.RoundTrip.Actions.{
  put_query_entity_tag, FitsQueryEntityTag, put_interact, FitsInteract, put_player_action,
  FitsPlayerAction, put_player_command, FitsPlayerCommand, put_swing_arm, FitsSwingArm,
  put_use_item_on, FitsUseItemOn, put_use_item, FitsUseItem,
}
use cubic_server.Packets.RoundTrip.Blocks.{
  put_query_block_entity_tag, FitsQueryBlockEntityTag, put_jigsaw_generate, FitsJigsawGenerate,
  put_program_command_block, FitsProgramCommandBlock, put_program_command_block_minecart,
  FitsProgramCommandBlockMinecart, put_program_jigsaw_block, FitsProgramJigsawBlock,
  put_program_structure_block, FitsProgramStructureBlock, put_update_sign, FitsUpdateSign,
}

-- The body of a packet in the wire format.
abbrev pub put_packet : ServerPacket → List ℕ → List ℕ
put_packet (handshake p) rest = put_handshake p rest
put_packet status_request rest = rest
put_packet (ping_request p) rest = put_ping_request p rest
put_packet (login_start p) rest = put_login_start p rest
put_packet (encryption_response p) rest = put_encryption_response p rest
put_packet (confirm_teleportation p) rest = put_confirm_teleportation p rest
put_packet (query_block_entity_tag p) rest = put_query_block_entity_tag p rest
put_packet (change_difficulty p) rest = put_change_difficulty p rest
put_packet (message_acknowledgement p) rest = put_message_acknowledgement p rest
put_packet (chat_command p) rest = put_chat_command p rest
put_packet (chat_message p) rest = put_chat_message p rest
put_packet (client_command p) rest = put_client_command p rest
put_packet (client_information p) rest = put_client_information p rest
put_packet (command_suggestion_request p) rest = put_command_suggestion_request p rest
put_packet (click_container_button p) rest = put_click_container_button p rest
put_packet (click_container p) rest = put_click_container p rest
put_packet (close_container_request p) rest = put_close_container_request p rest
put_packet (plugin_message p) rest = put_plugin_message p rest
put_packet (edit_book p) rest = put_edit_book p rest
put_packet (query_entity_tag p) rest = put_query_entity_tag p rest
put_packet (interact p) rest = put_interact p rest
put_packet (jigsaw_generate p) rest = put_jigsaw_generate p rest
put_packet (keep_alive_response p) rest = put_keep_alive_response p rest
put_packet (lock_difficulty p) rest = put_lock_difficulty p rest
put_packet (set_player_position p) rest = put_set_player_position p rest
put_packet (set_player_position_and_rotation p) rest = put_set_player_position_and_rotation p rest
put_packet (set_player_rotation p) rest = put_set_player_rotation p rest
put_packet (set_player_on_ground p) rest = put_set_player_on_ground p rest
put_packet (move_vehicle p) rest = put_move_vehicle p rest
put_packet (paddle_boat p) rest = put_paddle_boat p rest
put_packet (pick_item p) rest = put_pick_item p rest
put_packet (place_recipe p) rest = put_place_recipe p rest
put_packet (player_abilities p) rest = put_player_abilities p rest
put_packet (player_action p) rest = put_player_action p rest
put_packet (player_command p) rest = put_player_command p rest
put_packet (player_input p) rest = put_player_input p rest
put_packet (pong p) rest = put_pong p rest
put_packet (player_session p) rest = put_player_session p rest
put_packet (change_recipe_book_settings p) rest = put_change_recipe_book_settings p rest
put_packet (set_seen_recipe p) rest = put_set_seen_recipe p rest
put_packet (rename_item p) rest = put_rename_item p rest
put_packet (resource_pack p) rest = put_resource_pack p rest
put_packet (seen_advancements p) rest = put_seen_advancements p rest
put_packet (select_trade p) rest = put_select_trade p rest
put_packet (set_beacon_effect p) rest = put_set_beacon_effect p rest
put_packet (set_held_item p) rest = put_set_held_item p rest
put_packet (program_command_block p) rest = put_program_command_block p rest
put_packet (program_command_block_minecart p) rest = put_program_command_block_minecart p rest
put_packet (set_creative_mode_slot p) rest = put_set_creative_mode_slot p rest
put_packet (program_jigsaw_block p) rest = put_program_jigsaw_block p rest
put_packet (program_structure_block p) rest = put_program_structure_block p rest
put_packet (update_sign p) rest = put_update_sign p rest
put_packet (swing_arm p) rest = put_swing_arm p rest
put_packet (teleport_to_entity p) rest = put_teleport_to_entity p rest
put_packet (use_item_on p) rest = put_use_item_on p rest
put_packet (use_item p) rest = put_use_item p rest

-- The numbers fit the fields that they are sent in, and what is not sent is as made.
abbrev pub FitsPacket : ServerPacket → Type 0
FitsPacket (handshake p) = FitsHandshake p
FitsPacket (ping_request p) = FitsPingRequest p
FitsPacket (login_start p) = FitsLoginStart p
FitsPacket (encryption_response p) = FitsEncryptionResponse p
FitsPacket (confirm_teleportation p) = FitsConfirmTeleportation p
FitsPacket (query_block_entity_tag p) = FitsQueryBlockEntityTag p
FitsPacket (message_acknowledgement p) = FitsMessageAcknowledgement p
FitsPacket (chat_command p) = FitsChatCommand p
FitsPacket (chat_message p) = FitsChatMessage p
FitsPacket (client_command p) = FitsClientCommand p
FitsPacket (client_information p) = FitsClientInformation p
FitsPacket (command_suggestion_request p) = FitsCommandSuggestionRequest p
FitsPacket (click_container p) = FitsClickContainer p
FitsPacket (plugin_message p) = FitsPluginMessage p
FitsPacket (edit_book p) = FitsEditBook p
FitsPacket (query_entity_tag p) = FitsQueryEntityTag p
FitsPacket (interact p) = FitsInteract p
FitsPacket (jigsaw_generate p) = FitsJigsawGenerate p
FitsPacket (keep_alive_response p) = FitsKeepAliveResponse p
FitsPacket (set_player_position p) = FitsSetPlayerPosition p
FitsPacket (set_player_position_and_rotation p) = FitsSetPlayerPositionAndRotation p
FitsPacket (set_player_rotation p) = FitsSetPlayerRotation p
FitsPacket (move_vehicle p) = FitsMoveVehicle p
FitsPacket (pick_item p) = FitsPickItem p
FitsPacket (place_recipe p) = FitsPlaceRecipe p
FitsPacket (player_action p) = FitsPlayerAction p
FitsPacket (player_command p) = FitsPlayerCommand p
FitsPacket (player_input p) = FitsPlayerInput p
FitsPacket (pong p) = FitsPong p
FitsPacket (player_session p) = FitsPlayerSession p
FitsPacket (change_recipe_book_settings p) = FitsChangeRecipeBookSettings p
FitsPacket (set_seen_recipe p) = FitsSetSeenRecipe p
FitsPacket (rename_item p) = FitsRenameItem p
FitsPacket (resource_pack p) = FitsResourcePack p
FitsPacket (seen_advancements p) = FitsSeenAdvancements p
FitsPacket (select_trade p) = FitsSelectTrade p
FitsPacket (set_beacon_effect p) = FitsSetBeaconEffect p
FitsPacket (set_held_item p) = FitsSetHeldItem p
FitsPacket (program_command_block p) = FitsProgramCommandBlock p
FitsPacket (program_command_block_minecart p) = FitsProgramCommandBlockMinecart p
FitsPacket (set_creative_mode_slot p) = FitsSetCreativeModeSlot p
FitsPacket (program_jigsaw_block p) = FitsProgramJigsawBlock p
FitsPacket (program_structure_block p) = FitsProgramStructureBlock p
FitsPacket (update_sign p) = FitsUpdateSign p
FitsPacket (swing_arm p) = FitsSwingArm p
FitsPacket (teleport_to_entity p) = FitsTeleportToEntity p
FitsPacket (use_item_on p) = FitsUseItemOn p
FitsPacket (use_item p) = FitsUseItem p
FitsPacket _ = Unit {0}
