-- ===== src/Packets/RoundTrip/Chat.antt =====
-- cubic-server/protocol/ServerPackets.cpp: what each parser reads of a packet in the wire format:
-- chat messages and commands.
use cubic_server.Common.{ℕ, ◌^◌, ◌<◌, ◌≡◌, ◌∙◌, List, [], ok, ap, sym}
use cubic_server.Protocol.Cursor.{bind_ok}
use cubic_server.Protocol.Pop.{
  pop_byte, pop_boolean, pop_long, pop_var_int, pop_string, pop_array, pop_bit_set,
}
use cubic_server.Packets.Wire.{
  FitsArray, FitsOptional, FitsString, Reads, array_read, boolean_read, byte_array_read, long_read,
  no_bits, no_bits_read, optional_read, put_array, put_boolean, put_byte, put_long, put_no_bits,
  put_optional, put_string, put_var_int, string_read, var_int_read,
}
use cubic_server.Packets.Parsed.{field_ok, optional}
use cubic_server.Packets.Chat.{
  ArgumentSignature, pop_argument_signature, MessageAcknowledgement, ChatCommand, ChatMessage,
  CommandSuggestionRequest, parse_message_acknowledgement, parse_chat_command, parse_chat_message,
  parse_command_suggestion_request,
}

-- What the format sends for each structure, and which values it can send.
abbrev pub put_argument_signature : ArgumentSignature → List ℕ → List ℕ
put_argument_signature a rest = put_string a.argument (put_array put_byte a.signature rest)

abbrev pub FitsArgumentSignature : ArgumentSignature → Type 0
FitsArgumentSignature a = FitsString a.argument × FitsString a.signature

argument_signature_read : Reads pop_argument_signature put_argument_signature FitsArgumentSignature
unfolding pop_argument_signature
argument_signature_read a rest (h0, h1) =
    bind_ok pop_string _ _ (string_read a.argument _ h0)
    ∙ bind_ok (pop_array pop_byte) _ _ (byte_array_read a.signature _ h1)

abbrev pub put_argument_signatures : List ArgumentSignature → List ℕ → List ℕ
put_argument_signatures = put_array put_argument_signature

abbrev pub FitsArgumentSignatures : List ArgumentSignature → Type 0
FitsArgumentSignatures = FitsArray FitsArgumentSignature

argument_signatures_read :
    Reads (pop_array pop_argument_signature) put_argument_signatures FitsArgumentSignatures
argument_signatures_read =
    array_read pop_argument_signature put_argument_signature FitsArgumentSignature
      argument_signature_read

abbrev pub put_message_acknowledgement : MessageAcknowledgement → List ℕ → List ℕ
put_message_acknowledgement p rest = put_var_int p.message_count rest

abbrev pub FitsMessageAcknowledgement : MessageAcknowledgement → Type 0
FitsMessageAcknowledgement p = (p.message_count < 2 ^ 32)

pub message_acknowledgement_read :
    (p : MessageAcknowledgement) (rest : List ℕ)
    → FitsMessageAcknowledgement p
    → parse_message_acknowledgement (put_message_acknowledgement p rest) ≡ ok p
unfolding parse_message_acknowledgement
message_acknowledgement_read p rest h0 =
    field_ok pop_var_int _ _ (var_int_read p.message_count _ h0)

abbrev pub put_chat_command : ChatCommand → List ℕ → List ℕ
put_chat_command p rest = put_string p.command (
    put_long p.timestamp (
      put_long p.salt (
        put_argument_signatures p.argument_signatures
          (put_var_int p.message_count (put_no_bits p.acknowledged rest)))))

abbrev pub FitsChatCommand : ChatCommand → Type 0
FitsChatCommand p =
    FitsString p.command
    × (p.timestamp < 2 ^ 64)
    × (p.salt < 2 ^ 64)
    × FitsArgumentSignatures p.argument_signatures
    × (p.message_count < 2 ^ 32)
    × (p.acknowledged ≡ no_bits)

pub chat_command_read :
    (p : ChatCommand) (rest : List ℕ)
    → FitsChatCommand p
    → parse_chat_command (put_chat_command p rest) ≡ ok p
unfolding parse_chat_command
chat_command_read p rest (h0, h1, h2, h3, h4, h5) =
    field_ok pop_string _ _ (string_read p.command _ h0)
    ∙ field_ok pop_long _ _ (long_read p.timestamp _ h1)
    ∙ field_ok pop_long _ _ (long_read p.salt _ h2)
    ∙ field_ok (pop_array pop_argument_signature) _ _
        (argument_signatures_read p.argument_signatures _ h3)
    ∙ field_ok pop_var_int _ _ (var_int_read p.message_count _ h4)
    ∙ field_ok (pop_bit_set 20) _ _ (no_bits_read p.acknowledged _ h5)

abbrev pub put_chat_message : ChatMessage → List ℕ → List ℕ
put_chat_message p rest = put_string p.message (
    put_long p.timestamp (
      put_long p.salt (
        put_boolean p.is_signed (
          put_optional p.is_signed (put_array put_byte) p.signature
            (put_no_bits p.acknowledged rest)))))

abbrev pub FitsChatMessage : ChatMessage → Type 0
FitsChatMessage p =
    FitsString p.message
    × (p.timestamp < 2 ^ 64)
    × (p.salt < 2 ^ 64)
    × FitsOptional p.is_signed FitsString p.signature []
    × (p.acknowledged ≡ no_bits)
    × (p.message_count ≡ 0)

pub chat_message_read :
    (p : ChatMessage) (rest : List ℕ)
    → FitsChatMessage p
    → parse_chat_message (put_chat_message p rest) ≡ ok p
unfolding parse_chat_message
chat_message_read p rest (h0, h1, h2, h3, h4, h5) =
    field_ok pop_string _ _ (string_read p.message _ h0)
    ∙ field_ok pop_long _ _ (long_read p.timestamp _ h1)
    ∙ field_ok pop_long _ _ (long_read p.salt _ h2)
    ∙ field_ok pop_boolean _ _ (boolean_read p.is_signed _)
    ∙ field_ok (optional p.is_signed (pop_array pop_byte) []) _ _ (
        optional_read p.is_signed (pop_array pop_byte) (put_array put_byte) FitsString []
          p.signature _ byte_array_read h3)
    ∙ field_ok (pop_bit_set 20) _ _ (no_bits_read p.acknowledged _ h4)
    ∙ ap (λ (t : ℕ). ok (record p { message_count = t })) (sym h5)

abbrev pub put_command_suggestion_request : CommandSuggestionRequest → List ℕ → List ℕ
put_command_suggestion_request p rest = put_var_int p.transaction_id (put_string p.text rest)

abbrev pub FitsCommandSuggestionRequest : CommandSuggestionRequest → Type 0
FitsCommandSuggestionRequest p = (p.transaction_id < 2 ^ 32) × FitsString p.text

pub command_suggestion_request_read :
    (p : CommandSuggestionRequest) (rest : List ℕ)
    → FitsCommandSuggestionRequest p
    → parse_command_suggestion_request (put_command_suggestion_request p rest) ≡ ok p
unfolding parse_command_suggestion_request
command_suggestion_request_read p rest (h0, h1) =
    field_ok pop_var_int _ _ (var_int_read p.transaction_id _ h0)
    ∙ field_ok pop_string _ _ (string_read p.text _ h1)
