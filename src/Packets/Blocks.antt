-- ===== src/Packets/Blocks.antt =====
-- cubic-server/protocol/ServerPackets.hpp, ServerPackets.cpp: the blocks that are programmed. A text is the list of its
-- bytes, an enumeration its number, a float its bits.
use cubic_server.Common.{ℕ, Bool, List, [], Result}
use cubic_server.Protocol.Types.{Position}
use cubic_server.Protocol.Cursor.{pure, ◌>>=◌}
use cubic_server.Protocol.Pop.{
  pop_byte, pop_boolean, pop_var_int, pop_var_long, pop_float, pop_string, pop_position,
}
use cubic_server.Packets.Parsed.{parsed}

pub record QueryBlockEntityTag : Type 0 where
  pub transaction_id : ℕ
  pub location : Position

unfoldable pub parse_query_block_entity_tag : List ℕ → Result QueryBlockEntityTag
parse_query_block_entity_tag = parsed (do
  transaction_id ← pop_var_int
  location ← pop_position
  pure (record { transaction_id = transaction_id; location = location }))

pub record JigsawGenerate : Type 0 where
  pub location : Position
  pub levels : ℕ
  pub keep_jigsaws : Bool

unfoldable pub parse_jigsaw_generate : List ℕ → Result JigsawGenerate
parse_jigsaw_generate = parsed (do
  location ← pop_position
  levels ← pop_var_int
  keep_jigsaws ← pop_boolean
  pure (record { location = location; levels = levels; keep_jigsaws = keep_jigsaws }))

pub record ProgramCommandBlock : Type 0 where
  pub location : Position
  pub command : List ℕ
  pub mode : ℕ
  pub flags : ℕ

unfoldable pub parse_program_command_block : List ℕ → Result ProgramCommandBlock
parse_program_command_block = parsed (do
  location ← pop_position
  command ← pop_string
  mode ← pop_var_int
  flags ← pop_byte
  pure (record { location = location; command = command; mode = mode; flags = flags }))

pub record ProgramCommandBlockMinecart : Type 0 where
  pub entity_id : ℕ
  pub command : List ℕ
  pub track_output : Bool

unfoldable pub parse_program_command_block_minecart : List ℕ → Result ProgramCommandBlockMinecart
parse_program_command_block_minecart = parsed (do
  entity_id ← pop_var_int
  command ← pop_string
  track_output ← pop_boolean
  pure (record { entity_id = entity_id; command = command; track_output = track_output }))

pub record ProgramJigsawBlock : Type 0 where
  pub location : Position
  pub name : List ℕ
  pub target : List ℕ
  pub pool : List ℕ
  pub final_state : List ℕ
  pub joint_type : List ℕ

unfoldable pub parse_program_jigsaw_block : List ℕ → Result ProgramJigsawBlock
parse_program_jigsaw_block = parsed (do
  location ← pop_position
  name ← pop_string
  target ← pop_string
  pool ← pop_string
  final_state ← pop_string
  joint_type ← pop_string
  pure (record {
    location = location;
    name = name;
    target = target;
    pool = pool;
    final_state = final_state;
    joint_type = joint_type;
  }))

pub record ProgramStructureBlock : Type 0 where
  pub location : Position
  pub action : ℕ
  pub mode : ℕ
  pub name : List ℕ
  pub offset_x : ℕ
  pub offset_y : ℕ
  pub offset_z : ℕ
  pub size_x : ℕ
  pub size_y : ℕ
  pub size_z : ℕ
  pub mirror : ℕ
  pub rotation : ℕ
  pub metadata : List ℕ
  pub integrity : ℕ
  pub seed : ℕ
  pub flags : ℕ

-- `name` is not read.
unfoldable pub parse_program_structure_block : List ℕ → Result ProgramStructureBlock
parse_program_structure_block = parsed (do
  location ← pop_position
  action ← pop_var_int
  mode ← pop_var_int
  offset_x ← pop_byte
  offset_y ← pop_byte
  offset_z ← pop_byte
  size_x ← pop_byte
  size_y ← pop_byte
  size_z ← pop_byte
  mirror ← pop_var_int
  rotation ← pop_var_int
  metadata ← pop_string
  integrity ← pop_float
  seed ← pop_var_long
  flags ← pop_byte
  pure (record {
    location = location;
    action = action;
    mode = mode;
    name = [];
    offset_x = offset_x;
    offset_y = offset_y;
    offset_z = offset_z;
    size_x = size_x;
    size_y = size_y;
    size_z = size_z;
    mirror = mirror;
    rotation = rotation;
    metadata = metadata;
    integrity = integrity;
    seed = seed;
    flags = flags;
  }))

pub record UpdateSign : Type 0 where
  pub location : Position
  pub line1 : List ℕ
  pub line2 : List ℕ
  pub line3 : List ℕ
  pub line4 : List ℕ

unfoldable pub parse_update_sign : List ℕ → Result UpdateSign
parse_update_sign = parsed (do
  location ← pop_position
  line1 ← pop_string
  line2 ← pop_string
  line3 ← pop_string
  line4 ← pop_string
  pure (record { location = location; line1 = line1; line2 = line2; line3 = line3; line4 = line4 }))
