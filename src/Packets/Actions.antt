-- ===== src/Packets/Actions.antt =====
-- cubic-server/protocol/ServerPackets.hpp, ServerPackets.cpp: what the player does to blocks and entities. A text is the list of its
-- bytes, an enumeration its number, a float its bits.
use cubic_server.Common.{ℕ, Bool, not, ◌==◌, List, Result}
use cubic_server.Protocol.Types.{Position}
use cubic_server.Protocol.Cursor.{pure, ◌>>=◌}
use cubic_server.Protocol.Pop.{pop_byte, pop_boolean, pop_var_int, pop_float, pop_position}
use cubic_server.Packets.Parsed.{parsed, optional}

pub record QueryEntityTag : Type 0 where
  pub transaction_id : ℕ
  pub entity_id : ℕ

unfoldable pub parse_query_entity_tag : List ℕ → Result QueryEntityTag
parse_query_entity_tag = parsed (do
  transaction_id ← pop_var_int
  entity_id ← pop_var_int
  pure (record { transaction_id = transaction_id; entity_id = entity_id }))

pub record Interact : Type 0 where
  pub entity_id : ℕ
  pub type : ℕ
  pub target_x : ℕ
  pub target_y : ℕ
  pub target_z : ℕ
  pub hand : ℕ
  pub sneaking : Bool

unfoldable pub parse_interact : List ℕ → Result Interact
parse_interact = parsed (do
  entity_id ← pop_var_int
  type ← pop_var_int
  target_x ← optional (type == 2) pop_float 0
  target_y ← optional (type == 2) pop_float 0
  target_z ← optional (type == 2) pop_float 0
  hand ← optional (not (type == 1)) pop_var_int 0
  sneaking ← pop_boolean
  pure (record {
    entity_id = entity_id;
    type = type;
    target_x = target_x;
    target_y = target_y;
    target_z = target_z;
    hand = hand;
    sneaking = sneaking;
  }))

pub record PlayerAction : Type 0 where
  pub status : ℕ
  pub location : Position
  pub face : ℕ
  pub sequence : ℕ

unfoldable pub parse_player_action : List ℕ → Result PlayerAction
parse_player_action = parsed (do
  status ← pop_var_int
  location ← pop_position
  face ← pop_byte
  sequence ← pop_var_int
  pure (record { status = status; location = location; face = face; sequence = sequence }))

pub record PlayerCommand : Type 0 where
  pub entity_id : ℕ
  pub action_id : ℕ
  pub jump_boost : ℕ

unfoldable pub parse_player_command : List ℕ → Result PlayerCommand
parse_player_command = parsed (do
  entity_id ← pop_var_int
  action_id ← pop_var_int
  jump_boost ← pop_var_int
  pure (record { entity_id = entity_id; action_id = action_id; jump_boost = jump_boost }))

pub record SwingArm : Type 0 where
  pub hand : ℕ

unfoldable pub parse_swing_arm : List ℕ → Result SwingArm
parse_swing_arm = parsed (do hand ← pop_var_int; pure (record { hand = hand }))

pub record UseItemOn : Type 0 where
  pub hand : ℕ
  pub location : Position
  pub face : ℕ
  pub cursor_position_x : ℕ
  pub cursor_position_y : ℕ
  pub cursor_position_z : ℕ
  pub inside_block : Bool
  pub sequence : ℕ

unfoldable pub parse_use_item_on : List ℕ → Result UseItemOn
parse_use_item_on = parsed (do
  hand ← pop_var_int
  location ← pop_position
  face ← pop_var_int
  cursor_position_x ← pop_float
  cursor_position_y ← pop_float
  cursor_position_z ← pop_float
  inside_block ← pop_boolean
  sequence ← pop_var_int
  pure (record {
    hand = hand;
    location = location;
    face = face;
    cursor_position_x = cursor_position_x;
    cursor_position_y = cursor_position_y;
    cursor_position_z = cursor_position_z;
    inside_block = inside_block;
    sequence = sequence;
  }))

pub record UseItem : Type 0 where
  pub hand : ℕ
  pub sequence : ℕ

unfoldable pub parse_use_item : List ℕ → Result UseItem
parse_use_item = parsed (do
  hand ← pop_var_int
  sequence ← pop_var_int
  pure (record { hand = hand; sequence = sequence }))
