-- ===== src/Packets/Framing/Actions.antt =====
-- cubic-server/protocol/ServerPackets.cpp: the packets about actions in the wire format stand in
-- front of what follows them.
use cubic_server.Common.{ap, ◌∙◌, append_assoc, ◌==◌, not}
use cubic_server.Packets.Wire.{
  put_byte, put_boolean, put_float, put_var_int, put_position, put_optional,
}
use cubic_server.Packets.Fronts.{Fronts, optional-Fronts}
use cubic_server.Packets.RoundTrip.Actions.{
  put_query_entity_tag, put_interact, put_player_action, put_player_command, put_swing_arm,
  put_use_item_on, put_use_item,
}

pub query_entity_tag-Fronts : Fronts put_query_entity_tag
query_entity_tag-Fronts p bs rest =
    append_assoc _ _ rest ∙ ap (put_var_int p.transaction_id) (append_assoc _ _ rest)

pub interact-Fronts : Fronts put_interact
interact-Fronts p bs rest =
    append_assoc _ _ rest
    ∙ ap (put_var_int p.entity_id) (
        append_assoc _ _ rest
        ∙ ap (put_var_int p.type) (
            optional-Fronts (p.type == 2) put_float (λ v b r. append_assoc _ b r) p.target_x _ rest
            ∙ ap (put_optional (p.type == 2) put_float p.target_x) (
                optional-Fronts (p.type == 2) put_float (λ v b r. append_assoc _ b r) p.target_y _
                  rest
                ∙ ap (put_optional (p.type == 2) put_float p.target_y) (
                    optional-Fronts (p.type == 2) put_float (λ v b r. append_assoc _ b r) p.target_z
                      _ rest
                    ∙ ap (put_optional (p.type == 2) put_float p.target_z) (
                        optional-Fronts (not (p.type == 1)) put_var_int
                          (λ v b r. append_assoc _ b r) p.hand _ rest
                        ∙ ap (put_optional (not (p.type == 1)) put_var_int p.hand)
                            (append_assoc _ _ rest))))))

pub player_action-Fronts : Fronts put_player_action
player_action-Fronts p bs rest =
    append_assoc _ _ rest
    ∙ ap (put_var_int p.status) (
        append_assoc _ _ rest
        ∙ ap (put_position p.location) (ap (put_byte p.face) (append_assoc _ _ rest)))

pub player_command-Fronts : Fronts put_player_command
player_command-Fronts p bs rest =
    append_assoc _ _ rest
    ∙ ap (put_var_int p.entity_id)
        (append_assoc _ _ rest ∙ ap (put_var_int p.action_id) (append_assoc _ _ rest))

pub swing_arm-Fronts : Fronts put_swing_arm
swing_arm-Fronts p bs rest = append_assoc _ _ rest

pub use_item_on-Fronts : Fronts put_use_item_on
use_item_on-Fronts p bs rest =
    append_assoc _ _ rest
    ∙ ap (put_var_int p.hand) (
        append_assoc _ _ rest
        ∙ ap (put_position p.location) (
            append_assoc _ _ rest
            ∙ ap (put_var_int p.face) (
                append_assoc _ _ rest
                ∙ ap (put_float p.cursor_position_x) (
                    append_assoc _ _ rest
                    ∙ ap (put_float p.cursor_position_y) (
                        append_assoc _ _ rest
                        ∙ ap (put_float p.cursor_position_z) (
                            append_assoc _ _ rest
                            ∙ ap (put_boolean p.inside_block) (append_assoc _ _ rest)))))))

pub use_item-Fronts : Fronts put_use_item
use_item-Fronts p bs rest = append_assoc _ _ rest ∙ ap (put_var_int p.hand) (append_assoc _ _ rest)
