-- ===== src/Packets/Framing/Blocks.antt =====
-- cubic-server/protocol/ServerPackets.cpp: the packets about blocks in the wire format stand in
-- front of what follows them.
use cubic_server.Common.{refl, ap, ◌∙◌, append_assoc}
use cubic_server.Packets.Wire.{put_byte, put_float, put_var_int, put_string, put_position}
use cubic_server.Packets.Fronts.{Fronts}
use cubic_server.Packets.RoundTrip.Blocks.{
  put_query_block_entity_tag, put_jigsaw_generate, put_program_command_block,
  put_program_command_block_minecart, put_program_jigsaw_block, put_program_structure_block,
  put_update_sign,
}

pub query_block_entity_tag-Fronts : Fronts put_query_block_entity_tag
query_block_entity_tag-Fronts p bs rest =
    append_assoc _ _ rest ∙ ap (put_var_int p.transaction_id) (append_assoc _ _ rest)

pub jigsaw_generate-Fronts : Fronts put_jigsaw_generate
jigsaw_generate-Fronts p bs rest =
    append_assoc _ _ rest
    ∙ ap (put_position p.location)
        (append_assoc _ _ rest ∙ ap (put_var_int p.levels) (append_assoc _ _ rest))

pub program_command_block-Fronts : Fronts put_program_command_block
program_command_block-Fronts p bs rest =
    append_assoc _ _ rest
    ∙ ap (put_position p.location) (
        append_assoc _ _ rest
        ∙ ap (put_string p.command) (append_assoc _ _ rest ∙ ap (put_var_int p.mode) (refl)))

pub program_command_block_minecart-Fronts : Fronts put_program_command_block_minecart
program_command_block_minecart-Fronts p bs rest =
    append_assoc _ _ rest
    ∙ ap (put_var_int p.entity_id)
        (append_assoc _ _ rest ∙ ap (put_string p.command) (append_assoc _ _ rest))

pub program_jigsaw_block-Fronts : Fronts put_program_jigsaw_block
program_jigsaw_block-Fronts p bs rest =
    append_assoc _ _ rest
    ∙ ap (put_position p.location) (
        append_assoc _ _ rest
        ∙ ap (put_string p.name) (
            append_assoc _ _ rest
            ∙ ap (put_string p.target) (
                append_assoc _ _ rest
                ∙ ap (put_string p.pool) (
                    append_assoc _ _ rest
                    ∙ ap (put_string p.final_state) (append_assoc _ _ rest)))))

pub program_structure_block-Fronts : Fronts put_program_structure_block
program_structure_block-Fronts p bs rest =
    append_assoc _ _ rest
    ∙ ap (put_position p.location) (
        append_assoc _ _ rest
        ∙ ap (put_var_int p.action) (
            append_assoc _ _ rest
            ∙ ap (put_var_int p.mode) (
                ap (put_byte p.offset_x) (
                  ap (put_byte p.offset_y) (
                    ap (put_byte p.offset_z) (
                      ap (put_byte p.size_x) (
                        ap (put_byte p.size_y) (
                          ap (put_byte p.size_z) (
                            append_assoc _ _ rest
                            ∙ ap (put_var_int p.mirror) (
                                append_assoc _ _ rest
                                ∙ ap (put_var_int p.rotation) (
                                    append_assoc _ _ rest
                                    ∙ ap (put_string p.metadata) (
                                        append_assoc _ _ rest
                                        ∙ ap (put_float p.integrity) (
                                            append_assoc _ _ rest
                                            ∙ ap (put_var_int p.seed) (refl))))))))))))))

pub update_sign-Fronts : Fronts put_update_sign
update_sign-Fronts p bs rest =
    append_assoc _ _ rest
    ∙ ap (put_position p.location) (
        append_assoc _ _ rest
        ∙ ap (put_string p.line1) (
            append_assoc _ _ rest
            ∙ ap (put_string p.line2)
                (append_assoc _ _ rest ∙ ap (put_string p.line3) (append_assoc _ _ rest))))
