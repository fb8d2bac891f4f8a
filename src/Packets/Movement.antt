-- ===== src/Packets/Movement.antt =====
-- cubic-server/protocol/ServerPackets.hpp, ServerPackets.cpp: where the player is and how it moves. A text is the list of its
-- bytes, an enumeration its number, a float its bits.
use cubic_server.Common.{ℕ, Bool, List, Result}
use cubic_server.Protocol.Types.{U128}
use cubic_server.Protocol.Cursor.{pure, ◌>>=◌}
use cubic_server.Protocol.Pop.{pop_byte, pop_boolean, pop_var_int, pop_float, pop_double, pop_uuid}
use cubic_server.Packets.Parsed.{parsed}

pub record ConfirmTeleportation : Type 0 where
  pub teleport_id : ℕ

unfoldable pub parse_confirm_teleportation : List ℕ → Result ConfirmTeleportation
parse_confirm_teleportation =
    parsed (do teleport_id ← pop_var_int; pure (record { teleport_id = teleport_id }))

pub record SetPlayerPosition : Type 0 where
  pub x : ℕ
  pub feet_y : ℕ
  pub z : ℕ
  pub on_ground : Bool

unfoldable pub parse_set_player_position : List ℕ → Result SetPlayerPosition
parse_set_player_position = parsed (do
  x ← pop_double
  feet_y ← pop_double
  z ← pop_double
  on_ground ← pop_boolean
  pure (record { x = x; feet_y = feet_y; z = z; on_ground = on_ground }))

pub record SetPlayerPositionAndRotation : Type 0 where
  pub x : ℕ
  pub feet_y : ℕ
  pub z : ℕ
  pub yaw : ℕ
  pub pitch : ℕ
  pub on_ground : Bool

unfoldable pub parse_set_player_position_and_rotation : List ℕ → Result SetPlayerPositionAndRotation
parse_set_player_position_and_rotation = parsed (do
  x ← pop_double
  feet_y ← pop_double
  z ← pop_double
  yaw ← pop_float
  pitch ← pop_float
  on_ground ← pop_boolean
  pure (record { x = x; feet_y = feet_y; z = z; yaw = yaw; pitch = pitch; on_ground = on_ground }))

pub record SetPlayerRotation : Type 0 where
  pub yaw : ℕ
  pub pitch : ℕ
  pub on_ground : Bool

unfoldable pub parse_set_player_rotation : List ℕ → Result SetPlayerRotation
parse_set_player_rotation = parsed (do
  yaw ← pop_float
  pitch ← pop_float
  on_ground ← pop_boolean
  pure (record { yaw = yaw; pitch = pitch; on_ground = on_ground }))

pub record SetPlayerOnGround : Type 0 where
  pub on_ground : Bool

unfoldable pub parse_set_player_on_ground : List ℕ → Result SetPlayerOnGround
parse_set_player_on_ground =
    parsed (do on_ground ← pop_boolean; pure (record { on_ground = on_ground }))

pub record MoveVehicle : Type 0 where
  pub x : ℕ
  pub y : ℕ
  pub z : ℕ
  pub yaw : ℕ
  pub pitch : ℕ

unfoldable pub parse_move_vehicle : List ℕ → Result MoveVehicle
parse_move_vehicle = parsed (do
  x ← pop_double
  y ← pop_double
  z ← pop_double
  yaw ← pop_float
  pitch ← pop_float
  pure (record { x = x; y = y; z = z; yaw = yaw; pitch = pitch }))

pub record PaddleBoat : Type 0 where
  pub left_paddle_turning : Bool
  pub right_paddle_turning : Bool

unfoldable pub parse_paddle_boat : List ℕ → Result PaddleBoat
parse_paddle_boat = parsed (do
  left_paddle_turning ← pop_boolean
  right_paddle_turning ← pop_boolean
  pure (record {
    left_paddle_turning = left_paddle_turning;
    right_paddle_turning = right_paddle_turning;
  }))

pub record PlayerAbilities : Type 0 where
  pub flags : ℕ

unfoldable pub parse_player_abilities : List ℕ → Result PlayerAbilities
parse_player_abilities = parsed (do flags ← pop_byte; pure (record { flags = flags }))

pub record PlayerInput : Type 0 where
  pub sideways : ℕ
  pub forward : ℕ
  pub flags : ℕ

unfoldable pub parse_player_input : List ℕ → Result PlayerInput
parse_player_input = parsed (do
  sideways ← pop_float
  forward ← pop_float
  flags ← pop_byte
  pure (record { sideways = sideways; forward = forward; flags = flags }))

pub record TeleportToEntity : Type 0 where
  pub target_player : U128

unfoldable pub parse_teleport_to_entity : List ℕ → Result TeleportToEntity
parse_teleport_to_entity =
    parsed (do target_player ← pop_uuid; pure (record { target_player = target_player }))
