-- ===== src/Packets/Safety/Movement.antt =====
-- cubic-server/protocol/ServerPackets.cpp: no parser reads past the buffer: where the player is and how it moves.
use cubic_server.Common.{refl, []}
use cubic_server.Protocol.Pop.{pop_byte, pop_boolean, pop_var_int, pop_float, pop_double, pop_uuid}
use cubic_server.Protocol.Safety.{
  pop_byte-StaysInBounds, pop_boolean-StaysInBounds, pop_var_int-StaysInBounds,
  pop_float-StaysInBounds, pop_double-StaysInBounds, pop_uuid-StaysInBounds,
}
use cubic_server.Protocol.InBounds.{bind-StaysInBounds}
use cubic_server.Packets.Parsed.{parsed-Safe, Safe}
use cubic_server.Packets.Movement.{
  parse_confirm_teleportation, parse_set_player_position, parse_set_player_position_and_rotation,
  parse_set_player_rotation, parse_set_player_on_ground, parse_move_vehicle, parse_paddle_boat,
  parse_player_abilities, parse_player_input, parse_teleport_to_entity,
}

pub parse_confirm_teleportation-Safe : Safe parse_confirm_teleportation
unfolding parse_confirm_teleportation
parse_confirm_teleportation-Safe =
    parsed-Safe _ (
      bind-StaysInBounds pop_var_int _ pop_var_int-StaysInBounds
        (λ teleport_id. (λ bs. ([], refl))))

pub parse_set_player_position-Safe : Safe parse_set_player_position
unfolding parse_set_player_position
parse_set_player_position-Safe = parsed-Safe _ (
    bind-StaysInBounds pop_double _ pop_double-StaysInBounds (λ x.
      bind-StaysInBounds pop_double _ pop_double-StaysInBounds (λ feet_y.
        bind-StaysInBounds pop_double _ pop_double-StaysInBounds (λ z.
          bind-StaysInBounds pop_boolean _ pop_boolean-StaysInBounds
            (λ on_ground. (λ bs. ([], refl)))))))

pub parse_set_player_position_and_rotation-Safe : Safe parse_set_player_position_and_rotation
unfolding parse_set_player_position_and_rotation
parse_set_player_position_and_rotation-Safe = parsed-Safe _ (
    bind-StaysInBounds pop_double _ pop_double-StaysInBounds (λ x.
      bind-StaysInBounds pop_double _ pop_double-StaysInBounds (λ feet_y.
        bind-StaysInBounds pop_double _ pop_double-StaysInBounds (λ z.
          bind-StaysInBounds pop_float _ pop_float-StaysInBounds (λ yaw.
            bind-StaysInBounds pop_float _ pop_float-StaysInBounds (λ pitch.
              bind-StaysInBounds pop_boolean _ pop_boolean-StaysInBounds
                (λ on_ground. (λ bs. ([], refl)))))))))

pub parse_set_player_rotation-Safe : Safe parse_set_player_rotation
unfolding parse_set_player_rotation
parse_set_player_rotation-Safe = parsed-Safe _ (
    bind-StaysInBounds pop_float _ pop_float-StaysInBounds (λ yaw.
      bind-StaysInBounds pop_float _ pop_float-StaysInBounds (λ pitch.
        bind-StaysInBounds pop_boolean _ pop_boolean-StaysInBounds
          (λ on_ground. (λ bs. ([], refl))))))

pub parse_set_player_on_ground-Safe : Safe parse_set_player_on_ground
unfolding parse_set_player_on_ground
parse_set_player_on_ground-Safe =
    parsed-Safe _
      (bind-StaysInBounds pop_boolean _ pop_boolean-StaysInBounds (λ on_ground. (λ bs. ([], refl))))

pub parse_move_vehicle-Safe : Safe parse_move_vehicle
unfolding parse_move_vehicle
parse_move_vehicle-Safe = parsed-Safe _ (
    bind-StaysInBounds pop_double _ pop_double-StaysInBounds (λ x.
      bind-StaysInBounds pop_double _ pop_double-StaysInBounds (λ y.
        bind-StaysInBounds pop_double _ pop_double-StaysInBounds (λ z.
          bind-StaysInBounds pop_float _ pop_float-StaysInBounds (λ yaw.
            bind-StaysInBounds pop_float _ pop_float-StaysInBounds
              (λ pitch. (λ bs. ([], refl))))))))

pub parse_paddle_boat-Safe : Safe parse_paddle_boat
unfolding parse_paddle_boat
parse_paddle_boat-Safe = parsed-Safe _ (
    bind-StaysInBounds pop_boolean _ pop_boolean-StaysInBounds (λ left_paddle_turning.
      bind-StaysInBounds pop_boolean _ pop_boolean-StaysInBounds
        (λ right_paddle_turning. (λ bs. ([], refl)))))

pub parse_player_abilities-Safe : Safe parse_player_abilities
unfolding parse_player_abilities
parse_player_abilities-Safe =
    parsed-Safe _
      (bind-StaysInBounds pop_byte _ pop_byte-StaysInBounds (λ flags. (λ bs. ([], refl))))

pub parse_player_input-Safe : Safe parse_player_input
unfolding parse_player_input
parse_player_input-Safe = parsed-Safe _ (
    bind-StaysInBounds pop_float _ pop_float-StaysInBounds (λ sideways.
      bind-StaysInBounds pop_float _ pop_float-StaysInBounds (λ forward.
        bind-StaysInBounds pop_byte _ pop_byte-StaysInBounds (λ flags. (λ bs. ([], refl))))))

pub parse_teleport_to_entity-Safe : Safe parse_teleport_to_entity
unfolding parse_teleport_to_entity
parse_teleport_to_entity-Safe =
    parsed-Safe _
      (bind-StaysInBounds pop_uuid _ pop_uuid-StaysInBounds (λ target_player. (λ bs. ([], refl))))
