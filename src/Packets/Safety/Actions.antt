-- ===== src/Packets/Safety/Actions.antt =====
-- cubic-server/protocol/ServerPackets.cpp: no parser reads past the buffer: what the player does to blocks and entities.
use cubic_server.Common.{refl, not, ◌==◌, []}
use cubic_server.Protocol.Pop.{pop_byte, pop_boolean, pop_var_int, pop_float, pop_position}
use cubic_server.Protocol.Safety.{
  pop_byte-StaysInBounds, pop_boolean-StaysInBounds, pop_var_int-StaysInBounds,
  pop_float-StaysInBounds, pop_position-StaysInBounds,
}
use cubic_server.Protocol.InBounds.{bind-StaysInBounds}
use cubic_server.Packets.Parsed.{parsed-Safe, Safe, optional, optional-StaysInBounds}
use cubic_server.Packets.Actions.{
  parse_query_entity_tag, parse_interact, parse_player_action, parse_player_command,
  parse_swing_arm, parse_use_item_on, parse_use_item,
}

pub parse_query_entity_tag-Safe : Safe parse_query_entity_tag
unfolding parse_query_entity_tag
parse_query_entity_tag-Safe = parsed-Safe _ (
    bind-StaysInBounds pop_var_int _ pop_var_int-StaysInBounds (λ transaction_id.
      bind-StaysInBounds pop_var_int _ pop_var_int-StaysInBounds (λ entity_id. (λ bs. ([], refl)))))

pub parse_interact-Safe : Safe parse_interact
unfolding parse_interact
parse_interact-Safe = parsed-Safe _ (
    bind-StaysInBounds pop_var_int _ pop_var_int-StaysInBounds (λ entity_id.
      bind-StaysInBounds pop_var_int _ pop_var_int-StaysInBounds (λ type.
        bind-StaysInBounds (optional (type == 2) pop_float 0) _
          (optional-StaysInBounds (type == 2) pop_float 0 pop_float-StaysInBounds)
          (λ target_x.
            bind-StaysInBounds (optional (type == 2) pop_float 0) _
              (optional-StaysInBounds (type == 2) pop_float 0 pop_float-StaysInBounds)
              (λ target_y.
                bind-StaysInBounds (optional (type == 2) pop_float 0) _
                  (optional-StaysInBounds (type == 2) pop_float 0 pop_float-StaysInBounds)
                  (λ target_z.
                    bind-StaysInBounds (optional (not (type == 1)) pop_var_int 0) _
                      (optional-StaysInBounds (not (type == 1)) pop_var_int 0
                        pop_var_int-StaysInBounds)
                      (λ hand.
                        bind-StaysInBounds pop_boolean _ pop_boolean-StaysInBounds
                          (λ sneaking. (λ bs. ([], refl))))))))))

pub parse_player_action-Safe : Safe parse_player_action
unfolding parse_player_action
parse_player_action-Safe = parsed-Safe _ (
    bind-StaysInBounds pop_var_int _ pop_var_int-StaysInBounds (λ status.
      bind-StaysInBounds pop_position _ pop_position-StaysInBounds (λ location.
        bind-StaysInBounds pop_byte _ pop_byte-StaysInBounds (λ face.
          bind-StaysInBounds pop_var_int _ pop_var_int-StaysInBounds
            (λ sequence. (λ bs. ([], refl)))))))

pub parse_player_command-Safe : Safe parse_player_command
unfolding parse_player_command
parse_player_command-Safe = parsed-Safe _ (
    bind-StaysInBounds pop_var_int _ pop_var_int-StaysInBounds (λ entity_id.
      bind-StaysInBounds pop_var_int _ pop_var_int-StaysInBounds (λ action_id.
        bind-StaysInBounds pop_var_int _ pop_var_int-StaysInBounds
          (λ jump_boost. (λ bs. ([], refl))))))

pub parse_swing_arm-Safe : Safe parse_swing_arm
unfolding parse_swing_arm
parse_swing_arm-Safe =
    parsed-Safe _
      (bind-StaysInBounds pop_var_int _ pop_var_int-StaysInBounds (λ hand. (λ bs. ([], refl))))

pub parse_use_item_on-Safe : Safe parse_use_item_on
unfolding parse_use_item_on
parse_use_item_on-Safe = parsed-Safe _ (
    bind-StaysInBounds pop_var_int _ pop_var_int-StaysInBounds (λ hand.
      bind-StaysInBounds pop_position _ pop_position-StaysInBounds (λ location.
        bind-StaysInBounds pop_var_int _ pop_var_int-StaysInBounds (λ face.
          bind-StaysInBounds pop_float _ pop_float-StaysInBounds (λ cursor_position_x.
            bind-StaysInBounds pop_float _ pop_float-StaysInBounds (λ cursor_position_y.
              bind-StaysInBounds pop_float _ pop_float-StaysInBounds (λ cursor_position_z.
                bind-StaysInBounds pop_boolean _ pop_boolean-StaysInBounds (λ inside_block.
                  bind-StaysInBounds pop_var_int _ pop_var_int-StaysInBounds
                    (λ sequence. (λ bs. ([], refl)))))))))))

pub parse_use_item-Safe : Safe parse_use_item
unfolding parse_use_item
parse_use_item-Safe = parsed-Safe _ (
    bind-StaysInBounds pop_var_int _ pop_var_int-StaysInBounds (λ hand.
      bind-StaysInBounds pop_var_int _ pop_var_int-StaysInBounds (λ sequence. (λ bs. ([], refl)))))
