-- ===== src/Packets/Framing/Movement.antt =====
-- cubic-server/protocol/ServerPackets.cpp: the packets about movement in the wire format stand in
-- front of what follows them.
use cubic_server.Common.{refl, ap, ◌∙◌, append_assoc}
use cubic_server.Packets.Wire.{put_boolean, put_float, put_double}
use cubic_server.Packets.Fronts.{Fronts}
use cubic_server.Packets.RoundTrip.Movement.{
  put_confirm_teleportation, put_set_player_position, put_set_player_position_and_rotation,
  put_set_player_rotation, put_set_player_on_ground, put_move_vehicle, put_paddle_boat,
  put_player_abilities, put_player_input, put_teleport_to_entity,
}

pub confirm_teleportation-Fronts : Fronts put_confirm_teleportation
confirm_teleportation-Fronts p bs rest = append_assoc _ _ rest

pub set_player_position-Fronts : Fronts put_set_player_position
set_player_position-Fronts p bs rest =
    append_assoc _ _ rest
    ∙ ap (put_double p.x) (
        append_assoc _ _ rest
        ∙ ap (put_double p.feet_y)
            (append_assoc _ _ rest ∙ ap (put_double p.z) (append_assoc _ _ rest)))

pub set_player_position_and_rotation-Fronts : Fronts put_set_player_position_and_rotation
set_player_position_and_rotation-Fronts p bs rest =
    append_assoc _ _ rest
    ∙ ap (put_double p.x) (
        append_assoc _ _ rest
        ∙ ap (put_double p.feet_y) (
            append_assoc _ _ rest
            ∙ ap (put_double p.z) (
                append_assoc _ _ rest
                ∙ ap (put_float p.yaw)
                    (append_assoc _ _ rest ∙ ap (put_float p.pitch) (append_assoc _ _ rest)))))

pub set_player_rotation-Fronts : Fronts put_set_player_rotation
set_player_rotation-Fronts p bs rest =
    append_assoc _ _ rest
    ∙ ap (put_float p.yaw) (append_assoc _ _ rest ∙ ap (put_float p.pitch) (append_assoc _ _ rest))

pub set_player_on_ground-Fronts : Fronts put_set_player_on_ground
set_player_on_ground-Fronts p bs rest = append_assoc _ _ rest

pub move_vehicle-Fronts : Fronts put_move_vehicle
move_vehicle-Fronts p bs rest =
    append_assoc _ _ rest
    ∙ ap (put_double p.x) (
        append_assoc _ _ rest
        ∙ ap (put_double p.y) (
            append_assoc _ _ rest
            ∙ ap (put_double p.z)
                (append_assoc _ _ rest ∙ ap (put_float p.yaw) (append_assoc _ _ rest))))

pub paddle_boat-Fronts : Fronts put_paddle_boat
paddle_boat-Fronts p bs rest =
    append_assoc _ _ rest ∙ ap (put_boolean p.left_paddle_turning) (append_assoc _ _ rest)

pub player_abilities-Fronts : Fronts put_player_abilities
player_abilities-Fronts p bs rest = refl

pub player_input-Fronts : Fronts put_player_input
player_input-Fronts p bs rest =
    append_assoc _ _ rest
    ∙ ap (put_float p.sideways) (append_assoc _ _ rest ∙ ap (put_float p.forward) (refl))

pub teleport_to_entity-Fronts : Fronts put_teleport_to_entity
teleport_to_entity-Fronts p bs rest = append_assoc _ _ rest
