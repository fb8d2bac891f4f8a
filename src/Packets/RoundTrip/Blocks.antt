-- ===== src/Packets/RoundTrip/Blocks.antt =====
-- cubic-server/protocol/ServerPackets.cpp: what each parser reads of a packet in the wire format:
-- the blocks that are programmed.
use cubic_server.Common.{ℕ, ◌^◌, ◌<◌, ◌≡◌, ◌∙◌, List, [], ok, ap, sym}
use cubic_server.Protocol.Pop.{
  pop_byte, pop_boolean, pop_var_int, pop_var_long, pop_float, pop_string, pop_position,
}
use cubic_server.Packets.Wire.{
  FitsPosition, FitsString, boolean_read, byte_read, float_read, position_read, put_boolean,
  put_byte, put_float, put_position, put_string, put_var_int, string_read, var_int_read,
  var_long_read,
}
use cubic_server.Packets.Parsed.{field_ok}
use cubic_server.Packets.Blocks.{
  QueryBlockEntityTag, JigsawGenerate, ProgramCommandBlock, ProgramCommandBlockMinecart,
  ProgramJigsawBlock, ProgramStructureBlock, UpdateSign, parse_query_block_entity_tag,
  parse_jigsaw_generate, parse_program_command_block, parse_program_command_block_minecart,
  parse_program_jigsaw_block, parse_program_structure_block, parse_update_sign,
}

abbrev pub put_query_block_entity_tag : QueryBlockEntityTag → List ℕ → List ℕ
put_query_block_entity_tag p rest = put_var_int p.transaction_id (put_position p.location rest)

abbrev pub FitsQueryBlockEntityTag : QueryBlockEntityTag → Type 0
FitsQueryBlockEntityTag p = (p.transaction_id < 2 ^ 32) × FitsPosition p.location

pub query_block_entity_tag_read :
    (p : QueryBlockEntityTag) (rest : List ℕ)
    → FitsQueryBlockEntityTag p
    → parse_query_block_entity_tag (put_query_block_entity_tag p rest) ≡ ok p
unfolding parse_query_block_entity_tag
query_block_entity_tag_read p rest (h0, h1) =
    field_ok pop_var_int _ _ (var_int_read p.transaction_id _ h0)
    ∙ field_ok pop_position _ _ (position_read p.location _ h1)

abbrev pub put_jigsaw_generate : JigsawGenerate → List ℕ → List ℕ
put_jigsaw_generate p rest =
    put_position p.location (put_var_int p.levels (put_boolean p.keep_jigsaws rest))

abbrev pub FitsJigsawGenerate : JigsawGenerate → Type 0
FitsJigsawGenerate p = FitsPosition p.location × (p.levels < 2 ^ 32)

pub jigsaw_generate_read :
    (p : JigsawGenerate) (rest : List ℕ)
    → FitsJigsawGenerate p
    → parse_jigsaw_generate (put_jigsaw_generate p rest) ≡ ok p
unfolding parse_jigsaw_generate
jigsaw_generate_read p rest (h0, h1) =
    field_ok pop_position _ _ (position_read p.location _ h0)
    ∙ field_ok pop_var_int _ _ (var_int_read p.levels _ h1)
    ∙ field_ok pop_boolean _ _ (boolean_read p.keep_jigsaws _)

abbrev pub put_program_command_block : ProgramCommandBlock → List ℕ → List ℕ
put_program_command_block p rest =
    put_position p.location (put_string p.command (put_var_int p.mode (put_byte p.flags rest)))

abbrev pub FitsProgramCommandBlock : ProgramCommandBlock → Type 0
FitsProgramCommandBlock p = FitsPosition p.location × FitsString p.command × (p.mode < 2 ^ 32)

pub program_command_block_read :
    (p : ProgramCommandBlock) (rest : List ℕ)
    → FitsProgramCommandBlock p
    → parse_program_command_block (put_program_command_block p rest) ≡ ok p
unfolding parse_program_command_block
program_command_block_read p rest (h0, h1, h2) =
    field_ok pop_position _ _ (position_read p.location _ h0)
    ∙ field_ok pop_string _ _ (string_read p.command _ h1)
    ∙ field_ok pop_var_int _ _ (var_int_read p.mode _ h2)
    ∙ field_ok pop_byte _ _ (byte_read p.flags _)

abbrev pub put_program_command_block_minecart : ProgramCommandBlockMinecart → List ℕ → List ℕ
put_program_command_block_minecart p rest =
    put_var_int p.entity_id (put_string p.command (put_boolean p.track_output rest))

abbrev pub FitsProgramCommandBlockMinecart : ProgramCommandBlockMinecart → Type 0
FitsProgramCommandBlockMinecart p = (p.entity_id < 2 ^ 32) × FitsString p.command

pub program_command_block_minecart_read :
    (p : ProgramCommandBlockMinecart) (rest : List ℕ)
    → FitsProgramCommandBlockMinecart p
    → parse_program_command_block_minecart (put_program_command_block_minecart p rest) ≡ ok p
unfolding parse_program_command_block_minecart
program_command_block_minecart_read p rest (h0, h1) =
    field_ok pop_var_int _ _ (var_int_read p.entity_id _ h0)
    ∙ field_ok pop_string _ _ (string_read p.command _ h1)
    ∙ field_ok pop_boolean _ _ (boolean_read p.track_output _)

abbrev pub put_program_jigsaw_block : ProgramJigsawBlock → List ℕ → List ℕ
put_program_jigsaw_block p rest = put_position p.location (
    put_string p.name (
      put_string p.target
        (put_string p.pool (put_string p.final_state (put_string p.joint_type rest)))))

abbrev pub FitsProgramJigsawBlock : ProgramJigsawBlock → Type 0
FitsProgramJigsawBlock p =
    FitsPosition p.location
    × FitsString p.name
    × FitsString p.target
    × FitsString p.pool
    × FitsString p.final_state
    × FitsString p.joint_type

pub program_jigsaw_block_read :
    (p : ProgramJigsawBlock) (rest : List ℕ)
    → FitsProgramJigsawBlock p
    → parse_program_jigsaw_block (put_program_jigsaw_block p rest) ≡ ok p
unfolding parse_program_jigsaw_block
program_jigsaw_block_read p rest (h0, h1, h2, h3, h4, h5) =
    field_ok pop_position _ _ (position_read p.location _ h0)
    ∙ field_ok pop_string _ _ (string_read p.name _ h1)
    ∙ field_ok pop_string _ _ (string_read p.target _ h2)
    ∙ field_ok pop_string _ _ (string_read p.pool _ h3)
    ∙ field_ok pop_string _ _ (string_read p.final_state _ h4)
    ∙ field_ok pop_string _ _ (string_read p.joint_type _ h5)

abbrev pub put_program_structure_block : ProgramStructureBlock → List ℕ → List ℕ
put_program_structure_block p rest = put_position p.location (
    put_var_int p.action (
      put_var_int p.mode (
        put_byte p.offset_x (
          put_byte p.offset_y (
            put_byte p.offset_z (
              put_byte p.size_x (
                put_byte p.size_y (
                  put_byte p.size_z (
                    put_var_int p.mirror (
                      put_var_int p.rotation (
                        put_string p.metadata (
                          put_float p.integrity
                            (put_var_int p.seed (put_byte p.flags rest))))))))))))))

abbrev pub FitsProgramStructureBlock : ProgramStructureBlock → Type 0
FitsProgramStructureBlock p =
    FitsPosition p.location
    × (p.action < 2 ^ 32)
    × (p.mode < 2 ^ 32)
    × (p.mirror < 2 ^ 32)
    × (p.rotation < 2 ^ 32)
    × FitsString p.metadata
    × (p.integrity < 2 ^ 32)
    × (p.seed < 2 ^ 64)
    × (p.name ≡ [])

pub program_structure_block_read :
    (p : ProgramStructureBlock) (rest : List ℕ)
    → FitsProgramStructureBlock p
    → parse_program_structure_block (put_program_structure_block p rest) ≡ ok p
unfolding parse_program_structure_block
program_structure_block_read p rest (h0, h1, h2, h3, h4, h5, h6, h7, h8) =
    field_ok pop_position _ _ (position_read p.location _ h0)
    ∙ field_ok pop_var_int _ _ (var_int_read p.action _ h1)
    ∙ field_ok pop_var_int _ _ (var_int_read p.mode _ h2)
    ∙ field_ok pop_byte _ _ (byte_read p.offset_x _)
    ∙ field_ok pop_byte _ _ (byte_read p.offset_y _)
    ∙ field_ok pop_byte _ _ (byte_read p.offset_z _)
    ∙ field_ok pop_byte _ _ (byte_read p.size_x _)
    ∙ field_ok pop_byte _ _ (byte_read p.size_y _)
    ∙ field_ok pop_byte _ _ (byte_read p.size_z _)
    ∙ field_ok pop_var_int _ _ (var_int_read p.mirror _ h3)
    ∙ field_ok pop_var_int _ _ (var_int_read p.rotation _ h4)
    ∙ field_ok pop_string _ _ (string_read p.metadata _ h5)
    ∙ field_ok pop_float _ _ (float_read p.integrity _ h6)
    ∙ field_ok pop_var_long _ _ (var_long_read p.seed _ h7)
    ∙ field_ok pop_byte _ _ (byte_read p.flags _)
    ∙ ap (λ (t : List ℕ). ok (record p { name = t })) (sym h8)

abbrev pub put_update_sign : UpdateSign → List ℕ → List ℕ
put_update_sign p rest =
    put_position p.location
      (put_string p.line1 (put_string p.line2 (put_string p.line3 (put_string p.line4 rest))))

abbrev pub FitsUpdateSign : UpdateSign → Type 0
FitsUpdateSign p =
    FitsPosition p.location
    × FitsString p.line1
    × FitsString p.line2
    × FitsString p.line3
    × FitsString p.line4

pub update_sign_read :
    (p : UpdateSign) (rest : List ℕ)
    → FitsUpdateSign p
    → parse_update_sign (put_update_sign p rest) ≡ ok p
unfolding parse_update_sign
update_sign_read p rest (h0, h1, h2, h3, h4) =
    field_ok pop_position _ _ (position_read p.location _ h0)
    ∙ field_ok pop_string _ _ (string_read p.line1 _ h1)
    ∙ field_ok pop_string _ _ (string_read p.line2 _ h2)
    ∙ field_ok pop_string _ _ (string_read p.line3 _ h3)
    ∙ field_ok pop_string _ _ (string_read p.line4 _ h4)
