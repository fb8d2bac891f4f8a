-- ===== src/Packets/Session.antt =====
-- cubic-server/protocol/ServerPackets.hpp, ServerPackets.cpp: the packets of a session: log in, keep alive, settings. A text is the list of its
-- bytes, an enumeration its number, a float its bits.
use cubic_server.Common.{ℕ, Bool, List, [], Result}
use cubic_server.Protocol.Types.{U128}
use cubic_server.Protocol.Cursor.{pure, ◌>>=◌}
use cubic_server.Protocol.Pop.{
  pop_byte, pop_boolean, pop_short, pop_int, pop_long, pop_var_int, pop_string, pop_uuid, pop_array,
}
use cubic_server.Packets.Parsed.{parsed, optional, zero_uuid}

pub record Handshake : Type 0 where
  pub prot_version : ℕ
  pub addr : List ℕ
  pub port : ℕ
  pub next_state : ℕ

unfoldable pub parse_handshake : List ℕ → Result Handshake
parse_handshake = parsed (do
  prot_version ← pop_var_int
  addr ← pop_string
  port ← pop_short
  next_state ← pop_var_int
  pure (record { prot_version = prot_version; addr = addr; port = port; next_state = next_state }))

pub record PingRequest : Type 0 where
  pub payload : ℕ

unfoldable pub parse_ping_request : List ℕ → Result PingRequest
parse_ping_request = parsed (do payload ← pop_long; pure (record { payload = payload }))

pub record LoginStart : Type 0 where
  pub name : List ℕ
  pub has_player_uuid : Bool
  pub player_uuid : U128

unfoldable pub parse_login_start : List ℕ → Result LoginStart
parse_login_start = parsed (do
  name ← pop_string
  has_player_uuid ← pop_boolean
  player_uuid ← optional has_player_uuid pop_uuid zero_uuid
  pure (record { name = name; has_player_uuid = has_player_uuid; player_uuid = player_uuid }))

pub record EncryptionResponse : Type 0 where
  pub shared_secret : List ℕ
  pub verify_token : List ℕ

unfoldable pub parse_encryption_response : List ℕ → Result EncryptionResponse
parse_encryption_response = parsed (do
  shared_secret ← pop_array pop_byte
  verify_token ← pop_array pop_byte
  pure (record { shared_secret = shared_secret; verify_token = verify_token }))

pub record ChangeDifficulty : Type 0 where
  pub new_difficulty : ℕ

unfoldable pub parse_change_difficulty : List ℕ → Result ChangeDifficulty
parse_change_difficulty =
    parsed (do new_difficulty ← pop_byte; pure (record { new_difficulty = new_difficulty }))

pub record ClientCommand : Type 0 where
  pub action_id : ℕ

unfoldable pub parse_client_command : List ℕ → Result ClientCommand
parse_client_command = parsed (do action_id ← pop_var_int; pure (record { action_id = action_id }))

pub record ClientInformation : Type 0 where
  pub locale : List ℕ
  pub view_distance : ℕ
  pub chat_mode : ℕ
  pub chat_colors : Bool
  pub displayed_skin_parts : ℕ
  pub main_hand : ℕ
  pub enable_text_filtering : Bool
  pub allow_server_listings : Bool

unfoldable pub parse_client_information : List ℕ → Result ClientInformation
parse_client_information = parsed (do
  locale ← pop_string
  view_distance ← pop_byte
  chat_mode ← pop_var_int
  chat_colors ← pop_boolean
  displayed_skin_parts ← pop_byte
  main_hand ← pop_var_int
  enable_text_filtering ← pop_boolean
  allow_server_listings ← pop_boolean
  pure (record {
    locale = locale;
    view_distance = view_distance;
    chat_mode = chat_mode;
    chat_colors = chat_colors;
    displayed_skin_parts = displayed_skin_parts;
    main_hand = main_hand;
    enable_text_filtering = enable_text_filtering;
    allow_server_listings = allow_server_listings;
  }))

pub record PluginMessage : Type 0 where
  pub channel : List ℕ
  pub message_data : List ℕ

-- `data` is left empty.
unfoldable pub parse_plugin_message : List ℕ → Result PluginMessage
parse_plugin_message =
    parsed (do channel ← pop_string; pure (record { channel = channel; message_data = [] }))

pub record KeepAliveResponse : Type 0 where
  pub keep_alive_id : ℕ

unfoldable pub parse_keep_alive_response : List ℕ → Result KeepAliveResponse
parse_keep_alive_response =
    parsed (do keep_alive_id ← pop_long; pure (record { keep_alive_id = keep_alive_id }))

pub record LockDifficulty : Type 0 where
  pub locked : Bool

unfoldable pub parse_lock_difficulty : List ℕ → Result LockDifficulty
parse_lock_difficulty = parsed (do locked ← pop_boolean; pure (record { locked = locked }))

pub record Pong : Type 0 where
  pub id : ℕ

unfoldable pub parse_pong : List ℕ → Result Pong
parse_pong = parsed (do id ← pop_int; pure (record { id = id }))

pub record PlayerSession : Type 0 where
  pub uuid : U128
  pub expires_at : ℕ
  pub public_key : List ℕ
  pub signature : List ℕ

unfoldable pub parse_player_session : List ℕ → Result PlayerSession
parse_player_session = parsed (do
  uuid ← pop_uuid
  expires_at ← pop_long
  public_key ← pop_array pop_byte
  signature ← pop_array pop_byte
  pure (record {
    uuid = uuid;
    expires_at = expires_at;
    public_key = public_key;
    signature = signature;
  }))

pub record ResourcePack : Type 0 where
  pub result : ℕ

unfoldable pub parse_resource_pack : List ℕ → Result ResourcePack
parse_resource_pack = parsed (do result ← pop_var_int; pure (record { result = result }))
