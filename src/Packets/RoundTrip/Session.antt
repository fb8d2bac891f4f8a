-- ===== src/Packets/RoundTrip/Session.antt =====
-- cubic-server/protocol/ServerPackets.cpp: what each parser reads of a packet in the wire format:
-- the packets of a session: log in, keep alive, settings.
use cubic_server.Common.{ℕ, ◌^◌, ◌<◌, ◌≡◌, ◌∙◌, List, [], ok, ap, sym}
use cubic_server.Protocol.Pop.{
  pop_byte, pop_boolean, pop_short, pop_int, pop_long, pop_var_int, pop_string, pop_uuid, pop_array,
}
use cubic_server.Packets.Wire.{
  FitsOptional, FitsString, FitsUuid, boolean_read, byte_array_read, byte_read, int_read, long_read,
  optional_read, put_array, put_boolean, put_byte, put_int, put_long, put_optional, put_short,
  put_string, put_uuid, put_var_int, short_read, string_read, uuid_read, var_int_read,
}
use cubic_server.Packets.Parsed.{field_ok, optional, zero_uuid}
use cubic_server.Packets.Session.{
  Handshake, PingRequest, LoginStart, EncryptionResponse, ChangeDifficulty, ClientCommand,
  ClientInformation, PluginMessage, KeepAliveResponse, LockDifficulty, Pong, PlayerSession,
  ResourcePack, parse_handshake, parse_ping_request, parse_login_start, parse_encryption_response,
  parse_change_difficulty, parse_client_command, parse_client_information, parse_plugin_message,
  parse_keep_alive_response, parse_lock_difficulty, parse_pong, parse_player_session,
  parse_resource_pack,
}

abbrev pub put_handshake : Handshake → List ℕ → List ℕ
put_handshake p rest =
    put_var_int p.prot_version
      (put_string p.addr (put_short p.port (put_var_int p.next_state rest)))

abbrev pub FitsHandshake : Handshake → Type 0
FitsHandshake p =
    (p.prot_version < 2 ^ 32) × FitsString p.addr × (p.port < 2 ^ 16) × (p.next_state < 2 ^ 32)

pub handshake_read :
    (p : Handshake) (rest : List ℕ)
    → FitsHandshake p
    → parse_handshake (put_handshake p rest) ≡ ok p
unfolding parse_handshake
handshake_read p rest (h0, h1, h2, h3) =
    field_ok pop_var_int _ _ (var_int_read p.prot_version _ h0)
    ∙ field_ok pop_string _ _ (string_read p.addr _ h1)
    ∙ field_ok pop_short _ _ (short_read p.port _ h2)
    ∙ field_ok pop_var_int _ _ (var_int_read p.next_state _ h3)

abbrev pub put_ping_request : PingRequest → List ℕ → List ℕ
put_ping_request p rest = put_long p.payload rest

abbrev pub FitsPingRequest : PingRequest → Type 0
FitsPingRequest p = (p.payload < 2 ^ 64)

pub ping_request_read :
    (p : PingRequest) (rest : List ℕ)
    → FitsPingRequest p
    → parse_ping_request (put_ping_request p rest) ≡ ok p
unfolding parse_ping_request
ping_request_read p rest h0 = field_ok pop_long _ _ (long_read p.payload _ h0)

abbrev pub put_login_start : LoginStart → List ℕ → List ℕ
put_login_start p rest =
    put_string p.name
      (put_boolean p.has_player_uuid (put_optional p.has_player_uuid put_uuid p.player_uuid rest))

abbrev pub FitsLoginStart : LoginStart → Type 0
FitsLoginStart p =
    FitsString p.name × FitsOptional p.has_player_uuid FitsUuid p.player_uuid zero_uuid

pub login_start_read :
    (p : LoginStart) (rest : List ℕ)
    → FitsLoginStart p
    → parse_login_start (put_login_start p rest) ≡ ok p
unfolding parse_login_start
login_start_read p rest (h0, h1) =
    field_ok pop_string _ _ (string_read p.name _ h0)
    ∙ field_ok pop_boolean _ _ (boolean_read p.has_player_uuid _)
    ∙ field_ok (optional p.has_player_uuid pop_uuid zero_uuid) _ _ (
        optional_read p.has_player_uuid pop_uuid put_uuid FitsUuid zero_uuid p.player_uuid _
          uuid_read h1)

abbrev pub put_encryption_response : EncryptionResponse → List ℕ → List ℕ
put_encryption_response p rest =
    put_array put_byte p.shared_secret (put_array put_byte p.verify_token rest)

abbrev pub FitsEncryptionResponse : EncryptionResponse → Type 0
FitsEncryptionResponse p = FitsString p.shared_secret × FitsString p.verify_token

pub encryption_response_read :
    (p : EncryptionResponse) (rest : List ℕ)
    → FitsEncryptionResponse p
    → parse_encryption_response (put_encryption_response p rest) ≡ ok p
unfolding parse_encryption_response
encryption_response_read p rest (h0, h1) =
    field_ok (pop_array pop_byte) _ _ (byte_array_read p.shared_secret _ h0)
    ∙ field_ok (pop_array pop_byte) _ _ (byte_array_read p.verify_token _ h1)

abbrev pub put_change_difficulty : ChangeDifficulty → List ℕ → List ℕ
put_change_difficulty p rest = put_byte p.new_difficulty rest

pub change_difficulty_read :
    (p : ChangeDifficulty) (rest : List ℕ)
    → parse_change_difficulty (put_change_difficulty p rest) ≡ ok p
unfolding parse_change_difficulty
change_difficulty_read p rest = field_ok pop_byte _ _ (byte_read p.new_difficulty _)

abbrev pub put_client_command : ClientCommand → List ℕ → List ℕ
put_client_command p rest = put_var_int p.action_id rest

abbrev pub FitsClientCommand : ClientCommand → Type 0
FitsClientCommand p = (p.action_id < 2 ^ 32)

pub client_command_read :
    (p : ClientCommand) (rest : List ℕ)
    → FitsClientCommand p
    → parse_client_command (put_client_command p rest) ≡ ok p
unfolding parse_client_command
client_command_read p rest h0 = field_ok pop_var_int _ _ (var_int_read p.action_id _ h0)

abbrev pub put_client_information : ClientInformation → List ℕ → List ℕ
put_client_information p rest = put_string p.locale (
    put_byte p.view_distance (
      put_var_int p.chat_mode (
        put_boolean p.chat_colors (
          put_byte p.displayed_skin_parts (
            put_var_int p.main_hand
              (put_boolean p.enable_text_filtering (put_boolean p.allow_server_listings rest)))))))

abbrev pub FitsClientInformation : ClientInformation → Type 0
FitsClientInformation p = FitsString p.locale × (p.chat_mode < 2 ^ 32) × (p.main_hand < 2 ^ 32)

pub client_information_read :
    (p : ClientInformation) (rest : List ℕ)
    → FitsClientInformation p
    → parse_client_information (put_client_information p rest) ≡ ok p
unfolding parse_client_information
client_information_read p rest (h0, h1, h2) =
    field_ok pop_string _ _ (string_read p.locale _ h0)
    ∙ field_ok pop_byte _ _ (byte_read p.view_distance _)
    ∙ field_ok pop_var_int _ _ (var_int_read p.chat_mode _ h1)
    ∙ field_ok pop_boolean _ _ (boolean_read p.chat_colors _)
    ∙ field_ok pop_byte _ _ (byte_read p.displayed_skin_parts _)
    ∙ field_ok pop_var_int _ _ (var_int_read p.main_hand _ h2)
    ∙ field_ok pop_boolean _ _ (boolean_read p.enable_text_filtering _)
    ∙ field_ok pop_boolean _ _ (boolean_read p.allow_server_listings _)

abbrev pub put_plugin_message : PluginMessage → List ℕ → List ℕ
put_plugin_message p rest = put_string p.channel rest

abbrev pub FitsPluginMessage : PluginMessage → Type 0
FitsPluginMessage p = FitsString p.channel × (p.message_data ≡ [])

pub plugin_message_read :
    (p : PluginMessage) (rest : List ℕ)
    → FitsPluginMessage p
    → parse_plugin_message (put_plugin_message p rest) ≡ ok p
unfolding parse_plugin_message
plugin_message_read p rest (h0, h1) =
    field_ok pop_string _ _ (string_read p.channel _ h0)
    ∙ ap (λ (t : List ℕ). ok (record p { message_data = t })) (sym h1)

abbrev pub put_keep_alive_response : KeepAliveResponse → List ℕ → List ℕ
put_keep_alive_response p rest = put_long p.keep_alive_id rest

abbrev pub FitsKeepAliveResponse : KeepAliveResponse → Type 0
FitsKeepAliveResponse p = (p.keep_alive_id < 2 ^ 64)

pub keep_alive_response_read :
    (p : KeepAliveResponse) (rest : List ℕ)
    → FitsKeepAliveResponse p
    → parse_keep_alive_response (put_keep_alive_response p rest) ≡ ok p
unfolding parse_keep_alive_response
keep_alive_response_read p rest h0 = field_ok pop_long _ _ (long_read p.keep_alive_id _ h0)

abbrev pub put_lock_difficulty : LockDifficulty → List ℕ → List ℕ
put_lock_difficulty p rest = put_boolean p.locked rest

pub lock_difficulty_read :
    (p : LockDifficulty) (rest : List ℕ) → parse_lock_difficulty (put_lock_difficulty p rest) ≡ ok p
unfolding parse_lock_difficulty
lock_difficulty_read p rest = field_ok pop_boolean _ _ (boolean_read p.locked _)

abbrev pub put_pong : Pong → List ℕ → List ℕ
put_pong p rest = put_int p.id rest

abbrev pub FitsPong : Pong → Type 0
FitsPong p = (p.id < 2 ^ 32)

pub pong_read : (p : Pong) (rest : List ℕ) → FitsPong p → parse_pong (put_pong p rest) ≡ ok p
unfolding parse_pong
pong_read p rest h0 = field_ok pop_int _ _ (int_read p.id _ h0)

abbrev pub put_player_session : PlayerSession → List ℕ → List ℕ
put_player_session p rest =
    put_uuid p.uuid (
      put_long p.expires_at (put_array put_byte p.public_key (put_array put_byte p.signature rest)))

abbrev pub FitsPlayerSession : PlayerSession → Type 0
FitsPlayerSession p =
    FitsUuid p.uuid × (p.expires_at < 2 ^ 64) × FitsString p.public_key × FitsString p.signature

pub player_session_read :
    (p : PlayerSession) (rest : List ℕ)
    → FitsPlayerSession p
    → parse_player_session (put_player_session p rest) ≡ ok p
unfolding parse_player_session
player_session_read p rest (h0, h1, h2, h3) =
    field_ok pop_uuid _ _ (uuid_read p.uuid _ h0)
    ∙ field_ok pop_long _ _ (long_read p.expires_at _ h1)
    ∙ field_ok (pop_array pop_byte) _ _ (byte_array_read p.public_key _ h2)
    ∙ field_ok (pop_array pop_byte) _ _ (byte_array_read p.signature _ h3)

abbrev pub put_resource_pack : ResourcePack → List ℕ → List ℕ
put_resource_pack p rest = put_var_int p.result rest

abbrev pub FitsResourcePack : ResourcePack → Type 0
FitsResourcePack p = (p.result < 2 ^ 32)

pub resource_pack_read :
    (p : ResourcePack) (rest : List ℕ)
    → FitsResourcePack p
    → parse_resource_pack (put_resource_pack p rest) ≡ ok p
unfolding parse_resource_pack
resource_pack_read p rest h0 = field_ok pop_var_int _ _ (var_int_read p.result _ h0)
