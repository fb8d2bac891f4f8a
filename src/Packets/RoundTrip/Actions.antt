-- ===== src/Packets/RoundTrip/Actions.antt =====
-- cubic-server/protocol/ServerPackets.cpp: what each parser reads of a packet in the wire format:
-- what the player does to blocks and entities.
use cubic_server.Common.{ℕ, ◌^◌, ◌<◌, ◌≡◌, ◌∙◌, not, ◌==◌, List, ok}
use cubic_server.Protocol.Pop.{pop_byte, pop_boolean, pop_var_int, pop_float, pop_position}
use cubic_server.Packets.Wire.{
  FitsOptional, FitsPosition, boolean_read, byte_read, float_read, optional_read, position_read,
  put_boolean, put_byte, put_float, put_optional, put_position, put_var_int, var_int_read,
}
use cubic_server.Packets.Parsed.{field_ok, optional}
use cubic_server.Packets.Actions.{
  QueryEntityTag, Interact, PlayerAction, PlayerCommand, SwingArm, UseItemOn, UseItem,
  parse_query_entity_tag, parse_interact, parse_player_action, parse_player_command,
  parse_swing_arm, parse_use_item_on, parse_use_item,
}

abbrev pub put_query_entity_tag : QueryEntityTag → List ℕ → List ℕ
put_query_entity_tag p rest = put_var_int p.transaction_id (put_var_int p.entity_id rest)

abbrev pub FitsQueryEntityTag : QueryEntityTag → Type 0
FitsQueryEntityTag p = (p.transaction_id < 2 ^ 32) × (p.entity_id < 2 ^ 32)

pub query_entity_tag_read :
    (p : QueryEntityTag) (rest : List ℕ)
    → FitsQueryEntityTag p
    → parse_query_entity_tag (put_query_entity_tag p rest) ≡ ok p
unfolding parse_query_entity_tag
query_entity_tag_read p rest (h0, h1) =
    field_ok pop_var_int _ _ (var_int_read p.transaction_id _ h0)
    ∙ field_ok pop_var_int _ _ (var_int_read p.entity_id _ h1)

abbrev pub put_interact : Interact → List ℕ → List ℕ
put_interact p rest = put_var_int p.entity_id (
    put_var_int p.type (
      put_optional (p.type == 2) put_float p.target_x (
        put_optional (p.type == 2) put_float p.target_y (
          put_optional (p.type == 2) put_float p.target_z
            (put_optional (not (p.type == 1)) put_var_int p.hand (put_boolean p.sneaking rest))))))

abbrev pub FitsInteract : Interact → Type 0
FitsInteract p =
    (p.entity_id < 2 ^ 32)
    × (p.type < 2 ^ 32)
    × FitsOptional (p.type == 2) (λ v. v < 2 ^ 32) p.target_x 0
    × FitsOptional (p.type == 2) (λ v. v < 2 ^ 32) p.target_y 0
    × FitsOptional (p.type == 2) (λ v. v < 2 ^ 32) p.target_z 0
    × FitsOptional (not (p.type == 1)) (λ v. v < 2 ^ 32) p.hand 0

pub interact_read :
    (p : Interact) (rest : List ℕ) → FitsInteract p → parse_interact (put_interact p rest) ≡ ok p
unfolding parse_interact
interact_read p rest (h0, h1, h2, h3, h4, h5) =
    field_ok pop_var_int _ _ (var_int_read p.entity_id _ h0)
    ∙ field_ok pop_var_int _ _ (var_int_read p.type _ h1)
    ∙ field_ok (optional (p.type == 2) pop_float 0) _ _ (
        optional_read (p.type == 2) pop_float put_float (λ v. v < 2 ^ 32) 0 p.target_x _ float_read
          h2)
    ∙ field_ok (optional (p.type == 2) pop_float 0) _ _ (
        optional_read (p.type == 2) pop_float put_float (λ v. v < 2 ^ 32) 0 p.target_y _ float_read
          h3)
    ∙ field_ok (optional (p.type == 2) pop_float 0) _ _ (
        optional_read (p.type == 2) pop_float put_float (λ v. v < 2 ^ 32) 0 p.target_z _ float_read
          h4)
    ∙ field_ok (optional (not (p.type == 1)) pop_var_int 0) _ _ (
        optional_read (not (p.type == 1)) pop_var_int put_var_int (λ v. v < 2 ^ 32) 0 p.hand _
          var_int_read h5)
    ∙ field_ok pop_boolean _ _ (boolean_read p.sneaking _)

abbrev pub put_player_action : PlayerAction → List ℕ → List ℕ
put_player_action p rest =
    put_var_int p.status (put_position p.location (put_byte p.face (put_var_int p.sequence rest)))

abbrev pub FitsPlayerAction : PlayerAction → Type 0
FitsPlayerAction p = (p.status < 2 ^ 32) × FitsPosition p.location × (p.sequence < 2 ^ 32)

pub player_action_read :
    (p : PlayerAction) (rest : List ℕ)
    → FitsPlayerAction p
    → parse_player_action (put_player_action p rest) ≡ ok p
unfolding parse_player_action
player_action_read p rest (h0, h1, h2) =
    field_ok pop_var_int _ _ (var_int_read p.status _ h0)
    ∙ field_ok pop_position _ _ (position_read p.location _ h1)
    ∙ field_ok pop_byte _ _ (byte_read p.face _)
    ∙ field_ok pop_var_int _ _ (var_int_read p.sequence _ h2)

abbrev pub put_player_command : PlayerCommand → List ℕ → List ℕ
put_player_command p rest =
    put_var_int p.entity_id (put_var_int p.action_id (put_var_int p.jump_boost rest))

abbrev pub FitsPlayerCommand : PlayerCommand → Type 0
FitsPlayerCommand p = (p.entity_id < 2 ^ 32) × (p.action_id < 2 ^ 32) × (p.jump_boost < 2 ^ 32)

pub player_command_read :
    (p : PlayerCommand) (rest : List ℕ)
    → FitsPlayerCommand p
    → parse_player_command (put_player_command p rest) ≡ ok p
unfolding parse_player_command
player_command_read p rest (h0, h1, h2) =
    field_ok pop_var_int _ _ (var_int_read p.entity_id _ h0)
    ∙ field_ok pop_var_int _ _ (var_int_read p.action_id _ h1)
    ∙ field_ok pop_var_int _ _ (var_int_read p.jump_boost _ h2)

abbrev pub put_swing_arm : SwingArm → List ℕ → List ℕ
put_swing_arm p rest = put_var_int p.hand rest

abbrev pub FitsSwingArm : SwingArm → Type 0
FitsSwingArm p = (p.hand < 2 ^ 32)

pub swing_arm_read :
    (p : SwingArm) (rest : List ℕ) → FitsSwingArm p → parse_swing_arm (put_swing_arm p rest) ≡ ok p
unfolding parse_swing_arm
swing_arm_read p rest h0 = field_ok pop_var_int _ _ (var_int_read p.hand _ h0)

abbrev pub put_use_item_on : UseItemOn → List ℕ → List ℕ
put_use_item_on p rest = put_var_int p.hand (
    put_position p.location (
      put_var_int p.face (
        put_float p.cursor_position_x (
          put_float p.cursor_position_y (
            put_float p.cursor_position_z
              (put_boolean p.inside_block (put_var_int p.sequence rest)))))))

abbrev pub FitsUseItemOn : UseItemOn → Type 0
FitsUseItemOn p =
    (p.hand < 2 ^ 32)
    × FitsPosition p.location
    × (p.face < 2 ^ 32)
    × (p.cursor_position_x < 2 ^ 32)
    × (p.cursor_position_y < 2 ^ 32)
    × (p.cursor_position_z < 2 ^ 32)
    × (p.sequence < 2 ^ 32)

pub use_item_on_read :
    (p : UseItemOn) (rest : List ℕ)
    → FitsUseItemOn p
    → parse_use_item_on (put_use_item_on p rest) ≡ ok p
unfolding parse_use_item_on
use_item_on_read p rest (h0, h1, h2, h3, h4, h5, h6) =
    field_ok pop_var_int _ _ (var_int_read p.hand _ h0)
    ∙ field_ok pop_position _ _ (position_read p.location _ h1)
    ∙ field_ok pop_var_int _ _ (var_int_read p.face _ h2)
    ∙ field_ok pop_float _ _ (float_read p.cursor_position_x _ h3)
    ∙ field_ok pop_float _ _ (float_read p.cursor_position_y _ h4)
    ∙ field_ok pop_float _ _ (float_read p.cursor_position_z _ h5)
    ∙ field_ok pop_boolean _ _ (boolean_read p.inside_block _)
    ∙ field_ok pop_var_int _ _ (var_int_read p.sequence _ h6)

abbrev pub put_use_item : UseItem → List ℕ → List ℕ
put_use_item p rest = put_var_int p.hand (put_var_int p.sequence rest)

abbrev pub FitsUseItem : UseItem → Type 0
FitsUseItem p = (p.hand < 2 ^ 32) × (p.sequence < 2 ^ 32)

pub use_item_read :
    (p : UseItem) (rest : List ℕ) → FitsUseItem p → parse_use_item (put_use_item p rest) ≡ ok p
unfolding parse_use_item
use_item_read p rest (h0, h1) =
    field_ok pop_var_int _ _ (var_int_read p.hand _ h0)
    ∙ field_ok pop_var_int _ _ (var_int_read p.sequence _ h1)
