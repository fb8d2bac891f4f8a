-- ===== src/Packets/Safety/Blocks.antt =====
-- cubic-server/protocol/ServerPackets.cpp: no parser reads past the buffer: the blocks that are programmed.
use cubic_server.Common.{refl, []}
use cubic_server.Protocol.Pop.{
  pop_byte, pop_boolean, pop_var_int, pop_var_long, pop_float, pop_string, pop_position,
}
use cubic_server.Protocol.Safety.{
  pop_byte-StaysInBounds, pop_boolean-StaysInBounds, pop_var_int-StaysInBounds,
  pop_var_long-StaysInBounds, pop_float-StaysInBounds, pop_string-StaysInBounds,
  pop_position-StaysInBounds,
}
use cubic_server.Protocol.InBounds.{bind-StaysInBounds}
use cubic_server.Packets.Parsed.{parsed-Safe, Safe}
use cubic_server.Packets.Blocks.{
  parse_query_block_entity_tag, parse_jigsaw_generate, parse_program_command_block,
  parse_program_command_block_minecart, parse_program_jigsaw_block, parse_program_structure_block,
  parse_update_sign,
}

pub parse_query_block_entity_tag-Safe : Safe parse_query_block_entity_tag
unfolding parse_query_block_entity_tag
parse_query_block_entity_tag-Safe = parsed-Safe _ (
    bind-StaysInBounds pop_var_int _ pop_var_int-StaysInBounds (λ transaction_id.
      bind-StaysInBounds pop_position _ pop_position-StaysInBounds
        (λ location. (λ bs. ([], refl)))))

pub parse_jigsaw_generate-Safe : Safe parse_jigsaw_generate
unfolding parse_jigsaw_generate
parse_jigsaw_generate-Safe = parsed-Safe _ (
    bind-StaysInBounds pop_position _ pop_position-StaysInBounds (λ location.
      bind-StaysInBounds pop_var_int _ pop_var_int-StaysInBounds (λ levels.
        bind-StaysInBounds pop_boolean _ pop_boolean-StaysInBounds
          (λ keep_jigsaws. (λ bs. ([], refl))))))

pub parse_program_command_block-Safe : Safe parse_program_command_block
unfolding parse_program_command_block
parse_program_command_block-Safe = parsed-Safe _ (
    bind-StaysInBounds pop_position _ pop_position-StaysInBounds (λ location.
      bind-StaysInBounds pop_string _ pop_string-StaysInBounds (λ command.
        bind-StaysInBounds pop_var_int _ pop_var_int-StaysInBounds (λ mode.
          bind-StaysInBounds pop_byte _ pop_byte-StaysInBounds (λ flags. (λ bs. ([], refl)))))))

pub parse_program_command_block_minecart-Safe : Safe parse_program_command_block_minecart
unfolding parse_program_command_block_minecart
parse_program_command_block_minecart-Safe = parsed-Safe _ (
    bind-StaysInBounds pop_var_int _ pop_var_int-StaysInBounds (λ entity_id.
      bind-StaysInBounds pop_string _ pop_string-StaysInBounds (λ command.
        bind-StaysInBounds pop_boolean _ pop_boolean-StaysInBounds
          (λ track_output. (λ bs. ([], refl))))))

pub parse_program_jigsaw_block-Safe : Safe parse_program_jigsaw_block
unfolding parse_program_jigsaw_block
parse_program_jigsaw_block-Safe = parsed-Safe _ (
    bind-StaysInBounds pop_position _ pop_position-StaysInBounds (λ location.
      bind-StaysInBounds pop_string _ pop_string-StaysInBounds (λ name.
        bind-StaysInBounds pop_string _ pop_string-StaysInBounds (λ target.
          bind-StaysInBounds pop_string _ pop_string-StaysInBounds (λ pool.
            bind-StaysInBounds pop_string _ pop_string-StaysInBounds (λ final_state.
              bind-StaysInBounds pop_string _ pop_string-StaysInBounds
                (λ joint_type. (λ bs. ([], refl)))))))))

pub parse_program_structure_block-Safe : Safe parse_program_structure_block
unfolding parse_program_structure_block
parse_program_structure_block-Safe = parsed-Safe _ (
    bind-StaysInBounds pop_position _ pop_position-StaysInBounds (λ location.
      bind-StaysInBounds pop_var_int _ pop_var_int-StaysInBounds (λ action.
        bind-StaysInBounds pop_var_int _ pop_var_int-StaysInBounds (λ mode.
          bind-StaysInBounds pop_byte _ pop_byte-StaysInBounds (λ offset_x.
            bind-StaysInBounds pop_byte _ pop_byte-StaysInBounds (λ offset_y.
              bind-StaysInBounds pop_byte _ pop_byte-StaysInBounds (λ offset_z.
                bind-StaysInBounds pop_byte _ pop_byte-StaysInBounds (λ size_x.
                  bind-StaysInBounds pop_byte _ pop_byte-StaysInBounds (λ size_y.
                    bind-StaysInBounds pop_byte _ pop_byte-StaysInBounds (λ size_z.
                      bind-StaysInBounds pop_var_int _ pop_var_int-StaysInBounds (λ mirror.
                        bind-StaysInBounds pop_var_int _ pop_var_int-StaysInBounds (λ rotation.
                          bind-StaysInBounds pop_string _ pop_string-StaysInBounds (λ metadata.
                            bind-StaysInBounds pop_float _ pop_float-StaysInBounds (λ integrity.
                              bind-StaysInBounds pop_var_long _ pop_var_long-StaysInBounds (λ seed.
                                bind-StaysInBounds pop_byte _ pop_byte-StaysInBounds
                                  (λ flags. (λ bs. ([], refl))))))))))))))))))

pub parse_update_sign-Safe : Safe parse_update_sign
unfolding parse_update_sign
parse_update_sign-Safe = parsed-Safe _ (
    bind-StaysInBounds pop_position _ pop_position-StaysInBounds (λ location.
      bind-StaysInBounds pop_string _ pop_string-StaysInBounds (λ line1.
        bind-StaysInBounds pop_string _ pop_string-StaysInBounds (λ line2.
          bind-StaysInBounds pop_string _ pop_string-StaysInBounds (λ line3.
            bind-StaysInBounds pop_string _ pop_string-StaysInBounds
              (λ line4. (λ bs. ([], refl))))))))
