-- ===== src/Packets/Safety/Session.antt =====
-- cubic-server/protocol/ServerPackets.cpp: no parser reads past the buffer: the packets of a session: log in, keep alive, settings.
use cubic_server.Common.{refl, []}
use cubic_server.Protocol.Pop.{
  pop_byte, pop_boolean, pop_short, pop_int, pop_long, pop_var_int, pop_string, pop_uuid, pop_array,
}
use cubic_server.Protocol.Safety.{
  pop_array-StaysInBounds, pop_byte-StaysInBounds, pop_boolean-StaysInBounds,
  pop_short-StaysInBounds, pop_int-StaysInBounds, pop_long-StaysInBounds, pop_var_int-StaysInBounds,
  pop_string-StaysInBounds, pop_uuid-StaysInBounds,
}
use cubic_server.Protocol.InBounds.{StaysInBounds, bind-StaysInBounds}
use cubic_server.Packets.Parsed.{parsed-Safe, Safe, optional, optional-StaysInBounds, zero_uuid}
use cubic_server.Packets.Session.{
  parse_handshake, parse_ping_request, parse_login_start, parse_encryption_response,
  parse_change_difficulty, parse_client_command, parse_client_information, parse_plugin_message,
  parse_keep_alive_response, parse_lock_difficulty, parse_pong, parse_player_session,
  parse_resource_pack,
}

pop_byte_array-StaysInBounds : StaysInBounds (pop_array pop_byte)
pop_byte_array-StaysInBounds = pop_array-StaysInBounds pop_byte pop_byte-StaysInBounds

pub parse_handshake-Safe : Safe parse_handshake
unfolding parse_handshake
parse_handshake-Safe = parsed-Safe _ (
    bind-StaysInBounds pop_var_int _ pop_var_int-StaysInBounds (λ prot_version.
      bind-StaysInBounds pop_string _ pop_string-StaysInBounds (λ addr.
        bind-StaysInBounds pop_short _ pop_short-StaysInBounds (λ port.
          bind-StaysInBounds pop_var_int _ pop_var_int-StaysInBounds
            (λ next_state. (λ bs. ([], refl)))))))

pub parse_ping_request-Safe : Safe parse_ping_request
unfolding parse_ping_request
parse_ping_request-Safe =
    parsed-Safe _
      (bind-StaysInBounds pop_long _ pop_long-StaysInBounds (λ payload. (λ bs. ([], refl))))

pub parse_login_start-Safe : Safe parse_login_start
unfolding parse_login_start
parse_login_start-Safe = parsed-Safe _ (
    bind-StaysInBounds pop_string _ pop_string-StaysInBounds (λ name.
      bind-StaysInBounds pop_boolean _ pop_boolean-StaysInBounds (λ has_player_uuid.
        bind-StaysInBounds (optional has_player_uuid pop_uuid zero_uuid) _
          (optional-StaysInBounds has_player_uuid pop_uuid zero_uuid pop_uuid-StaysInBounds)
          (λ player_uuid. (λ bs. ([], refl))))))

pub parse_encryption_response-Safe : Safe parse_encryption_response
unfolding parse_encryption_response
parse_encryption_response-Safe = parsed-Safe _ (
    bind-StaysInBounds (pop_array pop_byte) _ pop_byte_array-StaysInBounds (λ shared_secret.
      bind-StaysInBounds (pop_array pop_byte) _ pop_byte_array-StaysInBounds
        (λ verify_token. (λ bs. ([], refl)))))

pub parse_change_difficulty-Safe : Safe parse_change_difficulty
unfolding parse_change_difficulty
parse_change_difficulty-Safe =
    parsed-Safe _
      (bind-StaysInBounds pop_byte _ pop_byte-StaysInBounds (λ new_difficulty. (λ bs. ([], refl))))

pub parse_client_command-Safe : Safe parse_client_command
unfolding parse_client_command
parse_client_command-Safe =
    parsed-Safe _
      (bind-StaysInBounds pop_var_int _ pop_var_int-StaysInBounds (λ action_id. (λ bs. ([], refl))))

pub parse_client_information-Safe : Safe parse_client_information
unfolding parse_client_information
parse_client_information-Safe = parsed-Safe _ (
    bind-StaysInBounds pop_string _ pop_string-StaysInBounds (λ locale.
      bind-StaysInBounds pop_byte _ pop_byte-StaysInBounds (λ view_distance.
        bind-StaysInBounds pop_var_int _ pop_var_int-StaysInBounds (λ chat_mode.
          bind-StaysInBounds pop_boolean _ pop_boolean-StaysInBounds (λ chat_colors.
            bind-StaysInBounds pop_byte _ pop_byte-StaysInBounds (λ displayed_skin_parts.
              bind-StaysInBounds pop_var_int _ pop_var_int-StaysInBounds (λ main_hand.
                bind-StaysInBounds pop_boolean _ pop_boolean-StaysInBounds (λ enable_text_filtering.
                  bind-StaysInBounds pop_boolean _ pop_boolean-StaysInBounds
                    (λ allow_server_listings. (λ bs. ([], refl)))))))))))

pub parse_plugin_message-Safe : Safe parse_plugin_message
unfolding parse_plugin_message
parse_plugin_message-Safe =
    parsed-Safe _
      (bind-StaysInBounds pop_string _ pop_string-StaysInBounds (λ channel. (λ bs. ([], refl))))

pub parse_keep_alive_response-Safe : Safe parse_keep_alive_response
unfolding parse_keep_alive_response
parse_keep_alive_response-Safe =
    parsed-Safe _
      (bind-StaysInBounds pop_long _ pop_long-StaysInBounds (λ keep_alive_id. (λ bs. ([], refl))))

pub parse_lock_difficulty-Safe : Safe parse_lock_difficulty
unfolding parse_lock_difficulty
parse_lock_difficulty-Safe =
    parsed-Safe _
      (bind-StaysInBounds pop_boolean _ pop_boolean-StaysInBounds (λ locked. (λ bs. ([], refl))))

pub parse_pong-Safe : Safe parse_pong
unfolding parse_pong
parse_pong-Safe =
    parsed-Safe _ (bind-StaysInBounds pop_int _ pop_int-StaysInBounds (λ id. (λ bs. ([], refl))))

pub parse_player_session-Safe : Safe parse_player_session
unfolding parse_player_session
parse_player_session-Safe = parsed-Safe _ (
    bind-StaysInBounds pop_uuid _ pop_uuid-StaysInBounds (λ uuid.
      bind-StaysInBounds pop_long _ pop_long-StaysInBounds (λ expires_at.
        bind-StaysInBounds (pop_array pop_byte) _ pop_byte_array-StaysInBounds (λ public_key.
          bind-StaysInBounds (pop_array pop_byte) _ pop_byte_array-StaysInBounds
            (λ signature. (λ bs. ([], refl)))))))

pub parse_resource_pack-Safe : Safe parse_resource_pack
unfolding parse_resource_pack
parse_resource_pack-Safe =
    parsed-Safe _
      (bind-StaysInBounds pop_var_int _ pop_var_int-StaysInBounds (λ result. (λ bs. ([], refl))))
