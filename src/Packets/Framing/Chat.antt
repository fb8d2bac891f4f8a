-- ===== src/Packets/Framing/Chat.antt =====
-- cubic-server/protocol/ServerPackets.cpp: the packets of the chat in the wire format stand in
-- front of what follows them.
use cubic_server.Common.{refl, ap, ◌∙◌, append_assoc}
use cubic_server.Packets.Wire.{
  put_byte, put_boolean, put_long, put_var_int, put_string, put_array, put_optional,
}
use cubic_server.Packets.RoundTrip.Chat.{
  put_argument_signature, put_argument_signatures, put_message_acknowledgement, put_chat_command,
  put_chat_message, put_command_suggestion_request,
}
use cubic_server.Packets.Fronts.{Fronts, array-Fronts, optional-Fronts, byte-Fronts, string-Fronts}

argument_signature-Fronts : Fronts put_argument_signature
argument_signature-Fronts a bs rest =
    string-Fronts a.argument _ rest
    ∙ ap (put_string a.argument) (array-Fronts put_byte byte-Fronts a.signature bs rest)

pub message_acknowledgement-Fronts : Fronts put_message_acknowledgement
message_acknowledgement-Fronts p bs rest = append_assoc _ _ rest

pub chat_command-Fronts : Fronts put_chat_command
chat_command-Fronts p bs rest =
    append_assoc _ _ rest
    ∙ ap (put_string p.command) (
        append_assoc _ _ rest
        ∙ ap (put_long p.timestamp) (
            append_assoc _ _ rest
            ∙ ap (put_long p.salt) (
                array-Fronts put_argument_signature argument_signature-Fronts p.argument_signatures
                  _ rest
                ∙ ap (put_argument_signatures p.argument_signatures)
                    (append_assoc _ _ rest ∙ ap (put_var_int p.message_count) (refl)))))

pub chat_message-Fronts : Fronts put_chat_message
chat_message-Fronts p bs rest =
    append_assoc _ _ rest
    ∙ ap (put_string p.message) (
        append_assoc _ _ rest
        ∙ ap (put_long p.timestamp) (
            append_assoc _ _ rest
            ∙ ap (put_long p.salt) (
                append_assoc _ _ rest
                ∙ ap (put_boolean p.is_signed) (
                    optional-Fronts p.is_signed (put_array put_byte)
                      (array-Fronts put_byte byte-Fronts) p.signature _ rest
                    ∙ ap (put_optional p.is_signed (put_array put_byte) p.signature) (refl)))))

pub command_suggestion_request-Fronts : Fronts put_command_suggestion_request
command_suggestion_request-Fronts p bs rest =
    append_assoc _ _ rest ∙ ap (put_var_int p.transaction_id) (append_assoc _ _ rest)
