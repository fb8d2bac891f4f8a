-- ===== src/Packets/Dispatch.antt =====
-- cubic-server/protocol/ServerPackets.hpp: the tables that give the parser of a packet id in each
-- state of a client, and common.hpp: these states.
use cubic_server.Common.{ℕ, Option, none, some, List, [], ◌∷◌, ◌==◌, if◌then◌else◌, Result, ok, err}
use cubic_server.Packets.Session.{
  Handshake, parse_handshake, PingRequest, parse_ping_request, LoginStart, parse_login_start,
  EncryptionResponse, parse_encryption_response, ChangeDifficulty, parse_change_difficulty,
  ClientCommand, parse_client_command, ClientInformation, parse_client_information, PluginMessage,
  parse_plugin_message, KeepAliveResponse, parse_keep_alive_response, LockDifficulty,
  parse_lock_difficulty, Pong, parse_pong, PlayerSession, parse_player_session, ResourcePack,
  parse_resource_pack,
}
use cubic_server.Packets.Chat.{
  MessageAcknowledgement, parse_message_acknowledgement, ChatCommand, parse_chat_command,
  ChatMessage, parse_chat_message, CommandSuggestionRequest, parse_command_suggestion_request,
}
use cubic_server.Packets.Items.{
  ClickContainerButton, parse_click_container_button, ClickContainer, parse_click_container,
  CloseContainerRequest, parse_close_container_request, EditBook, parse_edit_book, PickItem,
  parse_pick_item, PlaceRecipe, parse_place_recipe, ChangeRecipeBookSettings,
  parse_change_recipe_book_settings, SetSeenRecipe, parse_set_seen_recipe, RenameItem,
  parse_rename_item, SeenAdvancements, parse_seen_advancements, SelectTrade, parse_select_trade,
  SetBeaconEffect, parse_set_beacon_effect, SetHeldItem, parse_set_held_item, SetCreativeModeSlot,
  parse_set_creative_mode_slot,
}
use cubic_server.Packets.Movement.{
  ConfirmTeleportation, parse_confirm_teleportation, SetPlayerPosition, parse_set_player_position,
  SetPlayerPositionAndRotation, parse_set_player_position_and_rotation, SetPlayerRotation,
  parse_set_player_rotation, SetPlayerOnGround, parse_set_player_on_ground, MoveVehicle,
  parse_move_vehicle, PaddleBoat, parse_paddle_boat, PlayerAbilities, parse_player_abilities,
  PlayerInput, parse_player_input, TeleportToEntity, parse_teleport_to_entity,
}
use cubic_server.Packets.Actions.{
  QueryEntityTag, parse_query_entity_tag, Interact, parse_interact, PlayerAction,
  parse_player_action, PlayerCommand, parse_player_command, SwingArm, parse_swing_arm, UseItemOn,
  parse_use_item_on, UseItem, parse_use_item,
}
use cubic_server.Packets.Blocks.{
  QueryBlockEntityTag, parse_query_block_entity_tag, JigsawGenerate, parse_jigsaw_generate,
  ProgramCommandBlock, parse_program_command_block, ProgramCommandBlockMinecart,
  parse_program_command_block_minecart, ProgramJigsawBlock, parse_program_jigsaw_block,
  ProgramStructureBlock, parse_program_structure_block, UpdateSign, parse_update_sign,
}

pub data ClientStatus : Type 0 where
  initial status login play : ClientStatus

-- The subclasses of BaseServerPacket. parseStatusRequest gives a null pointer.
pub data ServerPacket : Type 0 where
  status_request : ServerPacket
  handshake : Handshake → ServerPacket
  ping_request : PingRequest → ServerPacket
  login_start : LoginStart → ServerPacket
  encryption_response : EncryptionResponse → ServerPacket
  confirm_teleportation : ConfirmTeleportation → ServerPacket
  query_block_entity_tag : QueryBlockEntityTag → ServerPacket
  change_difficulty : ChangeDifficulty → ServerPacket
  message_acknowledgement : MessageAcknowledgement → ServerPacket
  chat_command : ChatCommand → ServerPacket
  chat_message : ChatMessage → ServerPacket
  client_command : ClientCommand → ServerPacket
  client_information : ClientInformation → ServerPacket
  command_suggestion_request : CommandSuggestionRequest → ServerPacket
  click_container_button : ClickContainerButton → ServerPacket
  click_container : ClickContainer → ServerPacket
  close_container_request : CloseContainerRequest → ServerPacket
  plugin_message : PluginMessage → ServerPacket
  edit_book : EditBook → ServerPacket
  query_entity_tag : QueryEntityTag → ServerPacket
  interact : Interact → ServerPacket
  jigsaw_generate : JigsawGenerate → ServerPacket
  keep_alive_response : KeepAliveResponse → ServerPacket
  lock_difficulty : LockDifficulty → ServerPacket
  set_player_position : SetPlayerPosition → ServerPacket
  set_player_position_and_rotation : SetPlayerPositionAndRotation → ServerPacket
  set_player_rotation : SetPlayerRotation → ServerPacket
  set_player_on_ground : SetPlayerOnGround → ServerPacket
  move_vehicle : MoveVehicle → ServerPacket
  paddle_boat : PaddleBoat → ServerPacket
  pick_item : PickItem → ServerPacket
  place_recipe : PlaceRecipe → ServerPacket
  player_abilities : PlayerAbilities → ServerPacket
  player_action : PlayerAction → ServerPacket
  player_command : PlayerCommand → ServerPacket
  player_input : PlayerInput → ServerPacket
  pong : Pong → ServerPacket
  player_session : PlayerSession → ServerPacket
  change_recipe_book_settings : ChangeRecipeBookSettings → ServerPacket
  set_seen_recipe : SetSeenRecipe → ServerPacket
  rename_item : RenameItem → ServerPacket
  resource_pack : ResourcePack → ServerPacket
  seen_advancements : SeenAdvancements → ServerPacket
  select_trade : SelectTrade → ServerPacket
  set_beacon_effect : SetBeaconEffect → ServerPacket
  set_held_item : SetHeldItem → ServerPacket
  program_command_block : ProgramCommandBlock → ServerPacket
  program_command_block_minecart : ProgramCommandBlockMinecart → ServerPacket
  set_creative_mode_slot : SetCreativeModeSlot → ServerPacket
  program_jigsaw_block : ProgramJigsawBlock → ServerPacket
  program_structure_block : ProgramStructureBlock → ServerPacket
  update_sign : UpdateSign → ServerPacket
  swing_arm : SwingArm → ServerPacket
  teleport_to_entity : TeleportToEntity → ServerPacket
  use_item_on : UseItemOn → ServerPacket
  use_item : UseItem → ServerPacket

abbrev pub as_packet : {A : Type 0} → (A → ServerPacket) → Result A → Result ServerPacket
as_packet c (ok a) = ok (c a)
as_packet c (err e) = err e

abbrev pub Parser : Type 0
Parser = List ℕ → Result ServerPacket

unfoldable pub parse_status_request : Parser
parse_status_request buffer = ok status_request

-- `std::unordered_map::find`
unfoldable pub find : ℕ → List (ℕ × Parser) → Option Parser
find id [] = none
find id ((key, parser) ∷ table) = if key == id then some parser else find id table

unfoldable pub packet_id_to_parse_initial : List (ℕ × Parser)
packet_id_to_parse_initial = (0x00, λ buffer. as_packet handshake (parse_handshake buffer)) ∷ []

unfoldable pub packet_id_to_parse_status : List (ℕ × Parser)
packet_id_to_parse_status =
    (0, parse_status_request)
    ∷ (0x01, λ buffer. as_packet ping_request (parse_ping_request buffer))
    ∷ []

unfoldable pub packet_id_to_parse_login : List (ℕ × Parser)
packet_id_to_parse_login =
    (0x00, λ buffer. as_packet login_start (parse_login_start buffer))
    ∷ (0x01, λ buffer. as_packet encryption_response (parse_encryption_response buffer))
    ∷ []

unfoldable pub packet_id_to_parse_play : List (ℕ × Parser)
packet_id_to_parse_play =
    (0x00, λ buffer. as_packet confirm_teleportation (parse_confirm_teleportation buffer))
    ∷ (0x01, λ buffer. as_packet query_block_entity_tag (parse_query_block_entity_tag buffer))
    ∷ (0x02, λ buffer. as_packet change_difficulty (parse_change_difficulty buffer))
    ∷ (0x03, λ buffer. as_packet message_acknowledgement (parse_message_acknowledgement buffer))
    ∷ (0x04, λ buffer. as_packet chat_command (parse_chat_command buffer))
    ∷ (0x05, λ buffer. as_packet chat_message (parse_chat_message buffer))
    ∷ (0x06, λ buffer. as_packet client_command (parse_client_command buffer))
    ∷ (0x07, λ buffer. as_packet client_information (parse_client_information buffer))
    ∷ (
      0x08,
      λ buffer. as_packet command_suggestion_request (parse_command_suggestion_request buffer),
    )
    ∷ (0x09, λ buffer. as_packet click_container_button (parse_click_container_button buffer))
    ∷ (0x0a, λ buffer. as_packet click_container (parse_click_container buffer))
    ∷ (0x0b, λ buffer. as_packet close_container_request (parse_close_container_request buffer))
    ∷ (0x0c, λ buffer. as_packet plugin_message (parse_plugin_message buffer))
    ∷ (0x0d, λ buffer. as_packet edit_book (parse_edit_book buffer))
    ∷ (0x0e, λ buffer. as_packet query_entity_tag (parse_query_entity_tag buffer))
    ∷ (0x0f, λ buffer. as_packet interact (parse_interact buffer))
    ∷ (0x10, λ buffer. as_packet jigsaw_generate (parse_jigsaw_generate buffer))
    ∷ (0x11, λ buffer. as_packet keep_alive_response (parse_keep_alive_response buffer))
    ∷ (0x12, λ buffer. as_packet lock_difficulty (parse_lock_difficulty buffer))
    ∷ (0x13, λ buffer. as_packet set_player_position (parse_set_player_position buffer))
    ∷ (
      0x14,
      λ buffer.
          as_packet set_player_position_and_rotation
            (parse_set_player_position_and_rotation buffer),
    )
    ∷ (0x15, λ buffer. as_packet set_player_rotation (parse_set_player_rotation buffer))
    ∷ (0x16, λ buffer. as_packet set_player_on_ground (parse_set_player_on_ground buffer))
    ∷ (0x17, λ buffer. as_packet move_vehicle (parse_move_vehicle buffer))
    ∷ (0x18, λ buffer. as_packet paddle_boat (parse_paddle_boat buffer))
    ∷ (0x19, λ buffer. as_packet pick_item (parse_pick_item buffer))
    ∷ (0x1a, λ buffer. as_packet place_recipe (parse_place_recipe buffer))
    ∷ (0x1b, λ buffer. as_packet player_abilities (parse_player_abilities buffer))
    ∷ (0x1c, λ buffer. as_packet player_action (parse_player_action buffer))
    ∷ (0x1d, λ buffer. as_packet player_command (parse_player_command buffer))
    ∷ (0x1e, λ buffer. as_packet player_input (parse_player_input buffer))
    ∷ (0x1f, λ buffer. as_packet pong (parse_pong buffer))
    ∷ (0x20, λ buffer. as_packet player_session (parse_player_session buffer))
    ∷ (
      0x21,
      λ buffer. as_packet change_recipe_book_settings (parse_change_recipe_book_settings buffer),
    )
    ∷ (0x22, λ buffer. as_packet set_seen_recipe (parse_set_seen_recipe buffer))
    ∷ (0x23, λ buffer. as_packet rename_item (parse_rename_item buffer))
    ∷ (0x24, λ buffer. as_packet resource_pack (parse_resource_pack buffer))
    ∷ (0x25, λ buffer. as_packet seen_advancements (parse_seen_advancements buffer))
    ∷ (0x26, λ buffer. as_packet select_trade (parse_select_trade buffer))
    ∷ (0x27, λ buffer. as_packet set_beacon_effect (parse_set_beacon_effect buffer))
    ∷ (0x28, λ buffer. as_packet set_held_item (parse_set_held_item buffer))
    ∷ (0x29, λ buffer. as_packet program_command_block (parse_program_command_block buffer))
    ∷ (
      0x2a,
      λ buffer.
          as_packet program_command_block_minecart (parse_program_command_block_minecart buffer),
    )
    ∷ (0x2b, λ buffer. as_packet set_creative_mode_slot (parse_set_creative_mode_slot buffer))
    ∷ (0x2c, λ buffer. as_packet program_jigsaw_block (parse_program_jigsaw_block buffer))
    ∷ (0x2d, λ buffer. as_packet program_structure_block (parse_program_structure_block buffer))
    ∷ (0x2e, λ buffer. as_packet update_sign (parse_update_sign buffer))
    ∷ (0x2f, λ buffer. as_packet swing_arm (parse_swing_arm buffer))
    ∷ (0x30, λ buffer. as_packet teleport_to_entity (parse_teleport_to_entity buffer))
    ∷ (0x31, λ buffer. as_packet use_item_on (parse_use_item_on buffer))
    ∷ (0x32, λ buffer. as_packet use_item (parse_use_item buffer))
    ∷ []

unfoldable pub parsers : ClientStatus → ℕ → Option Parser
parsers initial id = find id packet_id_to_parse_initial
parsers status id = find id packet_id_to_parse_status
parsers login id = find id packet_id_to_parse_login
parsers play id = find id packet_id_to_parse_play
