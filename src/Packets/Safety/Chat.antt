-- ===== src/Packets/Safety/Chat.antt =====
-- cubic-server/protocol/ServerPackets.cpp: no parser reads past the buffer: chat messages and commands.
use cubic_server.Common.{refl, []}
use cubic_server.Protocol.Pop.{
  pop_byte, pop_boolean, pop_long, pop_var_int, pop_string, pop_array, pop_bit_set,
}
use cubic_server.Protocol.Safety.{
  pop_array-StaysInBounds, pop_byte-StaysInBounds, pop_boolean-StaysInBounds,
  pop_long-StaysInBounds, pop_var_int-StaysInBounds, pop_string-StaysInBounds,
  pop_bit_set-StaysInBounds,
}
use cubic_server.Protocol.InBounds.{StaysInBounds, bind-StaysInBounds}
use cubic_server.Packets.Parsed.{parsed-Safe, Safe, optional, optional-StaysInBounds}
use cubic_server.Packets.Chat.{
  pop_argument_signature, parse_message_acknowledgement, parse_chat_command, parse_chat_message,
  parse_command_suggestion_request,
}

pop_byte_array-StaysInBounds : StaysInBounds (pop_array pop_byte)
pop_byte_array-StaysInBounds = pop_array-StaysInBounds pop_byte pop_byte-StaysInBounds

pop_bit_set20-StaysInBounds : StaysInBounds (pop_bit_set 20)
pop_bit_set20-StaysInBounds = pop_bit_set-StaysInBounds 20

pop_argument_signature-StaysInBounds : StaysInBounds pop_argument_signature
unfolding pop_argument_signature
pop_argument_signature-StaysInBounds =
    bind-StaysInBounds pop_string _ pop_string-StaysInBounds (λ a.
      bind-StaysInBounds (pop_array pop_byte) _ pop_byte_array-StaysInBounds (λ s bs. ([], refl)))

pop_argument_signatures-StaysInBounds : StaysInBounds (pop_array pop_argument_signature)
pop_argument_signatures-StaysInBounds =
    pop_array-StaysInBounds pop_argument_signature pop_argument_signature-StaysInBounds

pub parse_message_acknowledgement-Safe : Safe parse_message_acknowledgement
unfolding parse_message_acknowledgement
parse_message_acknowledgement-Safe = parsed-Safe _ (
    bind-StaysInBounds pop_var_int _ pop_var_int-StaysInBounds
      (λ message_count. (λ bs. ([], refl))))

pub parse_chat_command-Safe : Safe parse_chat_command
unfolding parse_chat_command
parse_chat_command-Safe = parsed-Safe _ (
    bind-StaysInBounds pop_string _ pop_string-StaysInBounds (λ command.
      bind-StaysInBounds pop_long _ pop_long-StaysInBounds (λ timestamp.
        bind-StaysInBounds pop_long _ pop_long-StaysInBounds (λ salt.
          bind-StaysInBounds (pop_array pop_argument_signature) _
            pop_argument_signatures-StaysInBounds
            (λ argument_signatures.
              bind-StaysInBounds pop_var_int _ pop_var_int-StaysInBounds (λ message_count.
                bind-StaysInBounds (pop_bit_set 20) _ pop_bit_set20-StaysInBounds
                  (λ acknowledged. (λ bs. ([], refl)))))))))

pub parse_chat_message-Safe : Safe parse_chat_message
unfolding parse_chat_message
parse_chat_message-Safe = parsed-Safe _ (
    bind-StaysInBounds pop_string _ pop_string-StaysInBounds (λ message.
      bind-StaysInBounds pop_long _ pop_long-StaysInBounds (λ timestamp.
        bind-StaysInBounds pop_long _ pop_long-StaysInBounds (λ salt.
          bind-StaysInBounds pop_boolean _ pop_boolean-StaysInBounds (λ is_signed.
            bind-StaysInBounds (optional is_signed (pop_array pop_byte) []) _
              (optional-StaysInBounds is_signed (pop_array pop_byte) []
                pop_byte_array-StaysInBounds)
              (λ signature.
                bind-StaysInBounds (pop_bit_set 20) _ pop_bit_set20-StaysInBounds
                  (λ acknowledged. (λ bs. ([], refl)))))))))

pub parse_command_suggestion_request-Safe : Safe parse_command_suggestion_request
unfolding parse_command_suggestion_request
parse_command_suggestion_request-Safe = parsed-Safe _ (
    bind-StaysInBounds pop_var_int _ pop_var_int-StaysInBounds (λ transaction_id.
      bind-StaysInBounds pop_string _ pop_string-StaysInBounds (λ text. (λ bs. ([], refl)))))
