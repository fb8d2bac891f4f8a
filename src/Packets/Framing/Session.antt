-- ===== src/Packets/Framing/Session.antt =====
-- cubic-server/protocol/ServerPackets.cpp: the packets of a session in the wire format stand in
-- front of what follows them.
use cubic_server.Common.{refl, ap, ◌∙◌, append_assoc}
use cubic_server.Packets.Wire.{
  put_byte, put_boolean, put_short, put_long, put_var_int, put_string, put_uuid, put_array,
}
use cubic_server.Packets.Fronts.{Fronts, array-Fronts, optional-Fronts, byte-Fronts}
use cubic_server.Packets.RoundTrip.Session.{
  put_handshake, put_ping_request, put_login_start, put_encryption_response, put_change_difficulty,
  put_client_command, put_client_information, put_plugin_message, put_keep_alive_response,
  put_lock_difficulty, put_pong, put_player_session, put_resource_pack,
}

pub handshake-Fronts : Fronts put_handshake
handshake-Fronts p bs rest =
    append_assoc _ _ rest
    ∙ ap (put_var_int p.prot_version) (
        append_assoc _ _ rest
        ∙ ap (put_string p.addr)
            (append_assoc _ _ rest ∙ ap (put_short p.port) (append_assoc _ _ rest)))

pub ping_request-Fronts : Fronts put_ping_request
ping_request-Fronts p bs rest = append_assoc _ _ rest

pub login_start-Fronts : Fronts put_login_start
login_start-Fronts p bs rest =
    append_assoc _ _ rest
    ∙ ap (put_string p.name) (
        append_assoc _ _ rest
        ∙ ap (put_boolean p.has_player_uuid) (
            optional-Fronts p.has_player_uuid put_uuid (λ v b r. append_assoc _ b r) p.player_uuid _
              rest))

pub encryption_response-Fronts : Fronts put_encryption_response
encryption_response-Fronts p bs rest =
    array-Fronts put_byte byte-Fronts p.shared_secret _ rest
    ∙ ap (put_array put_byte p.shared_secret)
        (array-Fronts put_byte byte-Fronts p.verify_token _ rest)

pub change_difficulty-Fronts : Fronts put_change_difficulty
change_difficulty-Fronts p bs rest = refl

pub client_command-Fronts : Fronts put_client_command
client_command-Fronts p bs rest = append_assoc _ _ rest

pub client_information-Fronts : Fronts put_client_information
client_information-Fronts p bs rest =
    append_assoc _ _ rest
    ∙ ap (put_string p.locale) (
        ap (put_byte p.view_distance) (
          append_assoc _ _ rest
          ∙ ap (put_var_int p.chat_mode) (
              append_assoc _ _ rest
              ∙ ap (put_boolean p.chat_colors) (
                  ap (put_byte p.displayed_skin_parts) (
                    append_assoc _ _ rest
                    ∙ ap (put_var_int p.main_hand) (
                        append_assoc _ _ rest
                        ∙ ap (put_boolean p.enable_text_filtering) (append_assoc _ _ rest)))))))

pub plugin_message-Fronts : Fronts put_plugin_message
plugin_message-Fronts p bs rest = append_assoc _ _ rest

pub keep_alive_response-Fronts : Fronts put_keep_alive_response
keep_alive_response-Fronts p bs rest = append_assoc _ _ rest

pub lock_difficulty-Fronts : Fronts put_lock_difficulty
lock_difficulty-Fronts p bs rest = append_assoc _ _ rest

pub pong-Fronts : Fronts put_pong
pong-Fronts p bs rest = append_assoc _ _ rest

pub player_session-Fronts : Fronts put_player_session
player_session-Fronts p bs rest =
    append_assoc _ _ rest
    ∙ ap (put_uuid p.uuid) (
        append_assoc _ _ rest
        ∙ ap (put_long p.expires_at) (
            array-Fronts put_byte byte-Fronts p.public_key _ rest
            ∙ ap (put_array put_byte p.public_key)
                (array-Fronts put_byte byte-Fronts p.signature _ rest)))

pub resource_pack-Fronts : Fronts put_resource_pack
resource_pack-Fronts p bs rest = append_assoc _ _ rest
