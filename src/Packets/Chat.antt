-- ===== src/Packets/Chat.antt =====
-- cubic-server/protocol/ServerPackets.hpp, ServerPackets.cpp: chat messages and commands. A text is the list of its
-- bytes, an enumeration its number, a float its bits.
use cubic_server.Common.{ℕ, Bool, List, [], Result}
use cubic_server.Protocol.Cursor.{Pop, pure, ◌>>=◌}
use cubic_server.Protocol.Pop.{
  pop_byte, pop_boolean, pop_long, pop_var_int, pop_string, pop_array, pop_bit_set,
}
use cubic_server.Packets.Parsed.{parsed, optional}

-- `ChatCommand::ArgumentSignature`
pub record ArgumentSignature : Type 0 where
  pub argument : List ℕ
  pub signature : List ℕ

unfoldable pub pop_argument_signature : Pop ArgumentSignature
pop_argument_signature = do
  argument ← pop_string
  signature ← pop_array pop_byte
  pure (record { argument = argument; signature = signature })

pub record MessageAcknowledgement : Type 0 where
  pub message_count : ℕ

unfoldable pub parse_message_acknowledgement : List ℕ → Result MessageAcknowledgement
parse_message_acknowledgement =
    parsed (do message_count ← pop_var_int; pure (record { message_count = message_count }))

pub record ChatCommand : Type 0 where
  pub command : List ℕ
  pub timestamp : ℕ
  pub salt : ℕ
  pub argument_signatures : List ArgumentSignature
  pub message_count : ℕ
  pub acknowledged : List Bool

unfoldable pub parse_chat_command : List ℕ → Result ChatCommand
parse_chat_command = parsed (do
  command ← pop_string
  timestamp ← pop_long
  salt ← pop_long
  argument_signatures ← pop_array pop_argument_signature
  message_count ← pop_var_int
  acknowledged ← pop_bit_set 20
  pure (record {
    command = command;
    timestamp = timestamp;
    salt = salt;
    argument_signatures = argument_signatures;
    message_count = message_count;
    acknowledged = acknowledged;
  }))

pub record ChatMessage : Type 0 where
  pub message : List ℕ
  pub timestamp : ℕ
  pub salt : ℕ
  pub is_signed : Bool
  pub signature : List ℕ
  pub message_count : ℕ
  pub acknowledged : List Bool

-- `messageCount` is not read.
unfoldable pub parse_chat_message : List ℕ → Result ChatMessage
parse_chat_message = parsed (do
  message ← pop_string
  timestamp ← pop_long
  salt ← pop_long
  is_signed ← pop_boolean
  signature ← optional is_signed (pop_array pop_byte) []
  acknowledged ← pop_bit_set 20
  pure (record {
    message = message;
    timestamp = timestamp;
    salt = salt;
    is_signed = is_signed;
    signature = signature;
    message_count = 0;
    acknowledged = acknowledged;
  }))

pub record CommandSuggestionRequest : Type 0 where
  pub transaction_id : ℕ
  pub text : List ℕ

unfoldable pub parse_command_suggestion_request : List ℕ → Result CommandSuggestionRequest
parse_command_suggestion_request = parsed (do
  transaction_id ← pop_var_int
  text ← pop_string
  pure (record { transaction_id = transaction_id; text = text }))
