-- ===== src/Packets/RoundTrip/Movement.antt =====
-- cubic-server/protocol/ServerPackets.cpp: what each parser reads of a packet in the wire format:
-- where the player is and how it moves.
use cubic_server.Common.{ℕ, ◌^◌, ◌<◌, ◌≡◌, ◌∙◌, List, ok}
use cubic_server.Protocol.Pop.{pop_byte, pop_boolean, pop_var_int, pop_float, pop_double, pop_uuid}
use cubic_server.Packets.Wire.{
  FitsUuid, boolean_read, byte_read, double_read, float_read, put_boolean, put_byte, put_double,
  put_float, put_uuid, put_var_int, uuid_read, var_int_read,
}
use cubic_server.Packets.Parsed.{field_ok}
use cubic_server.Packets.Movement.{
  ConfirmTeleportation, SetPlayerPosition, SetPlayerPositionAndRotation, SetPlayerRotation,
  SetPlayerOnGround, MoveVehicle, PaddleBoat, PlayerAbilities, PlayerInput, TeleportToEntity,
  parse_confirm_teleportation, parse_set_player_position, parse_set_player_position_and_rotation,
  parse_set_player_rotation, parse_set_player_on_ground, parse_move_vehicle, parse_paddle_boat,
  parse_player_abilities, parse_player_input, parse_teleport_to_entity,
}

abbrev pub put_confirm_teleportation : ConfirmTeleportation → List ℕ → List ℕ
put_confirm_teleportation p rest = put_var_int p.teleport_id rest

abbrev pub FitsConfirmTeleportation : ConfirmTeleportation → Type 0
FitsConfirmTeleportation p = (p.teleport_id < 2 ^ 32)

pub confirm_teleportation_read :
    (p : ConfirmTeleportation) (rest : List ℕ)
    → FitsConfirmTeleportation p
    → parse_confirm_teleportation (put_confirm_teleportation p rest) ≡ ok p
unfolding parse_confirm_teleportation
confirm_teleportation_read p rest h0 = field_ok pop_var_int _ _ (var_int_read p.teleport_id _ h0)

abbrev pub put_set_player_position : SetPlayerPosition → List ℕ → List ℕ
put_set_player_position p rest =
    put_double p.x (put_double p.feet_y (put_double p.z (put_boolean p.on_ground rest)))

abbrev pub FitsSetPlayerPosition : SetPlayerPosition → Type 0
FitsSetPlayerPosition p = (p.x < 2 ^ 64) × (p.feet_y < 2 ^ 64) × (p.z < 2 ^ 64)

pub set_player_position_read :
    (p : SetPlayerPosition) (rest : List ℕ)
    → FitsSetPlayerPosition p
    → parse_set_player_position (put_set_player_position p rest) ≡ ok p
unfolding parse_set_player_position
set_player_position_read p rest (h0, h1, h2) =
    field_ok pop_double _ _ (double_read p.x _ h0)
    ∙ field_ok pop_double _ _ (double_read p.feet_y _ h1)
    ∙ field_ok pop_double _ _ (double_read p.z _ h2)
    ∙ field_ok pop_boolean _ _ (boolean_read p.on_ground _)

abbrev pub put_set_player_position_and_rotation : SetPlayerPositionAndRotation → List ℕ → List ℕ
put_set_player_position_and_rotation p rest = put_double p.x (
    put_double p.feet_y
      (put_double p.z (put_float p.yaw (put_float p.pitch (put_boolean p.on_ground rest)))))

abbrev pub FitsSetPlayerPositionAndRotation : SetPlayerPositionAndRotation → Type 0
FitsSetPlayerPositionAndRotation p =
    (p.x < 2 ^ 64) × (p.feet_y < 2 ^ 64) × (p.z < 2 ^ 64) × (p.yaw < 2 ^ 32) × (p.pitch < 2 ^ 32)

pub set_player_position_and_rotation_read :
    (p : SetPlayerPositionAndRotation) (rest : List ℕ)
    → FitsSetPlayerPositionAndRotation p
    → parse_set_player_position_and_rotation (put_set_player_position_and_rotation p rest) ≡ ok p
unfolding parse_set_player_position_and_rotation
set_player_position_and_rotation_read p rest (h0, h1, h2, h3, h4) =
    field_ok pop_double _ _ (double_read p.x _ h0)
    ∙ field_ok pop_double _ _ (double_read p.feet_y _ h1)
    ∙ field_ok pop_double _ _ (double_read p.z _ h2)
    ∙ field_ok pop_float _ _ (float_read p.yaw _ h3)
    ∙ field_ok pop_float _ _ (float_read p.pitch _ h4)
    ∙ field_ok pop_boolean _ _ (boolean_read p.on_ground _)

abbrev pub put_set_player_rotation : SetPlayerRotation → List ℕ → List ℕ
put_set_player_rotation p rest = put_float p.yaw (put_float p.pitch (put_boolean p.on_ground rest))

abbrev pub FitsSetPlayerRotation : SetPlayerRotation → Type 0
FitsSetPlayerRotation p = (p.yaw < 2 ^ 32) × (p.pitch < 2 ^ 32)

pub set_player_rotation_read :
    (p : SetPlayerRotation) (rest : List ℕ)
    → FitsSetPlayerRotation p
    → parse_set_player_rotation (put_set_player_rotation p rest) ≡ ok p
unfolding parse_set_player_rotation
set_player_rotation_read p rest (h0, h1) =
    field_ok pop_float _ _ (float_read p.yaw _ h0)
    ∙ field_ok pop_float _ _ (float_read p.pitch _ h1)
    ∙ field_ok pop_boolean _ _ (boolean_read p.on_ground _)

abbrev pub put_set_player_on_ground : SetPlayerOnGround → List ℕ → List ℕ
put_set_player_on_ground p rest = put_boolean p.on_ground rest

pub set_player_on_ground_read :
    (p : SetPlayerOnGround) (rest : List ℕ)
    → parse_set_player_on_ground (put_set_player_on_ground p rest) ≡ ok p
unfolding parse_set_player_on_ground
set_player_on_ground_read p rest = field_ok pop_boolean _ _ (boolean_read p.on_ground _)

abbrev pub put_move_vehicle : MoveVehicle → List ℕ → List ℕ
put_move_vehicle p rest =
    put_double p.x (put_double p.y (put_double p.z (put_float p.yaw (put_float p.pitch rest))))

abbrev pub FitsMoveVehicle : MoveVehicle → Type 0
FitsMoveVehicle p =
    (p.x < 2 ^ 64) × (p.y < 2 ^ 64) × (p.z < 2 ^ 64) × (p.yaw < 2 ^ 32) × (p.pitch < 2 ^ 32)

pub move_vehicle_read :
    (p : MoveVehicle) (rest : List ℕ)
    → FitsMoveVehicle p
    → parse_move_vehicle (put_move_vehicle p rest) ≡ ok p
unfolding parse_move_vehicle
move_vehicle_read p rest (h0, h1, h2, h3, h4) =
    field_ok pop_double _ _ (double_read p.x _ h0)
    ∙ field_ok pop_double _ _ (double_read p.y _ h1)
    ∙ field_ok pop_double _ _ (double_read p.z _ h2)
    ∙ field_ok pop_float _ _ (float_read p.yaw _ h3)
    ∙ field_ok pop_float _ _ (float_read p.pitch _ h4)

abbrev pub put_paddle_boat : PaddleBoat → List ℕ → List ℕ
put_paddle_boat p rest = put_boolean p.left_paddle_turning (put_boolean p.right_paddle_turning rest)

pub paddle_boat_read :
    (p : PaddleBoat) (rest : List ℕ) → parse_paddle_boat (put_paddle_boat p rest) ≡ ok p
unfolding parse_paddle_boat
paddle_boat_read p rest =
    field_ok pop_boolean _ _ (boolean_read p.left_paddle_turning _)
    ∙ field_ok pop_boolean _ _ (boolean_read p.right_paddle_turning _)

abbrev pub put_player_abilities : PlayerAbilities → List ℕ → List ℕ
put_player_abilities p rest = put_byte p.flags rest

pub player_abilities_read :
    (p : PlayerAbilities) (rest : List ℕ)
    → parse_player_abilities (put_player_abilities p rest) ≡ ok p
unfolding parse_player_abilities
player_abilities_read p rest = field_ok pop_byte _ _ (byte_read p.flags _)

abbrev pub put_player_input : PlayerInput → List ℕ → List ℕ
put_player_input p rest = put_float p.sideways (put_float p.forward (put_byte p.flags rest))

abbrev pub FitsPlayerInput : PlayerInput → Type 0
FitsPlayerInput p = (p.sideways < 2 ^ 32) × (p.forward < 2 ^ 32)

pub player_input_read :
    (p : PlayerInput) (rest : List ℕ)
    → FitsPlayerInput p
    → parse_player_input (put_player_input p rest) ≡ ok p
unfolding parse_player_input
player_input_read p rest (h0, h1) =
    field_ok pop_float _ _ (float_read p.sideways _ h0)
    ∙ field_ok pop_float _ _ (float_read p.forward _ h1)
    ∙ field_ok pop_byte _ _ (byte_read p.flags _)

abbrev pub put_teleport_to_entity : TeleportToEntity → List ℕ → List ℕ
put_teleport_to_entity p rest = put_uuid p.target_player rest

abbrev pub FitsTeleportToEntity : TeleportToEntity → Type 0
FitsTeleportToEntity p = FitsUuid p.target_player

pub teleport_to_entity_read :
    (p : TeleportToEntity) (rest : List ℕ)
    → FitsTeleportToEntity p
    → parse_teleport_to_entity (put_teleport_to_entity p rest) ≡ ok p
unfolding parse_teleport_to_entity
teleport_to_entity_read p rest h0 = field_ok pop_uuid _ _ (uuid_read p.target_player _ h0)
