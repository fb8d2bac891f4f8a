-- ===== src/Client.antt =====
-- cubic-server/Client.cpp: `_handlePacket`, which takes the packets that have arrived out of the
-- receive buffer. The table of parsers and the handler of a parsed packet are parameters: `parsers`
-- gives the parser of a packet id in a state of the client, `handle` the state after the packet.
use cubic_server.Common.{
  ℕ, zero, suc, ◌+◌, ◌-◌, ◌^◌, Bool, true, false, not, ◌&&◌, Option, none, some, List, [], ◌∷◌,
  length, drop, if◌then◌else◌, ltb, leb, ◌==◌, Exception, packet_eof, varint_overflow,
  max_length_string, out_of_range_boolean, empty_storage_access, out_of_range, logic_error,
  runtime_error, length_error, type_mismatch, undefined, signed_overflow, Result, ok, err,
}
use cubic_server.Protocol.Cursor.{Pop}
use cubic_server.Protocol.Pop.{pop_var_int}
pub mod Loop
pub mod Stream
pub mod Limits
pub mod Session
pub mod Login
pub mod Whitelisted
pub mod ServerStream
mod LoginTests
mod Tests

-- How a call of `_handlePacket` ends: it waits for more bytes, it returns for an unknown packet or a
-- failed parser, an exception leaves it, or it still runs after the rounds it was given.
pub data Outcome {ℓ} (S : Type ℓ) : Type ℓ where
  waiting : S → List ℕ → Outcome S
  returned : S → List ℕ → Outcome S
  escaped : Exception → Outcome S
  running : Outcome S

-- `eof` points behind the last byte here, so popVarInt reads a byte there before it throws.
abbrev pub past_end {ℓ} : {A : Type ℓ} → Result A → Result A
past_end (ok a) = ok a
past_end (err packet_eof) = err undefined
past_end (err e) = err e

unfoldable pub frame_var_int : Pop ℕ
frame_var_int bs = past_end (pop_var_int bs)

-- `catch (std::runtime_error &)`: the exceptions of the program derive from it.
abbrev is_runtime_error : Exception → Bool
is_runtime_error out_of_range = false
is_runtime_error logic_error = false
is_runtime_error length_error = false
is_runtime_error undefined = false
is_runtime_error signed_overflow = false
is_runtime_error _ = true

-- `length > eof - at + 1`, for an int32_t length.
abbrev pub too_long : ℕ → ℕ → Bool
too_long len left = not (leb (2 ^ 31) len) && ltb (left + 1) len

-- `data.erase(data.begin(), data.begin() + start + length)`, for an int32_t length: a range that does
-- not lie in the buffer has no meaning.
abbrev pub erase_frame : ℕ → ℕ → List ℕ → Result (List ℕ)
erase_frame start len buffer =
    if leb (2 ^ 31) len
    then (if ltb start (2 ^ 32 - len)
        then err undefined
        else ok (drop (start - (2 ^ 32 - len)) buffer))
    else if ltb (length buffer) (start + len)
    then err undefined
    else ok (drop (start + len) buffer)

module _ {ℓ κ} {S : Type ℓ} {P : Type κ} (parsers : S → ℕ → Option (List ℕ → Result P))
    (handle : S → ℕ → P → S) where
  -- What a round does behind the length: the parser gets all the bytes behind the packet id.
  abbrev pub deliver : (S → List ℕ → Outcome S) → S → ℕ → List ℕ → List ℕ → Outcome S
  deliver next s id at buffer = elim (parsers s id) [
    | none ↦ returned s buffer
    | some parser ↦ elim (parser at) [
      | ok packet ↦ next (handle s id packet) buffer
      | err e ↦ if is_runtime_error e then returned s buffer else escaped e
    ]
  ]

  abbrev pub payload : (S → List ℕ → Outcome S) → S → ℕ → List ℕ → List ℕ → Outcome S
  payload next s len rest buffer = elim (frame_var_int rest) [
    | err e ↦ escaped e
    | ok (id, at) ↦ elim (erase_frame (length buffer - length rest) len buffer) [
      | err e ↦ escaped e
      | ok left ↦ deliver next s id at left
    ]
  ]

  -- The loop, for at most so many rounds.
  unfoldable pub handle_packets : ℕ → S → List ℕ → Outcome S
  handle_packets zero s buffer = running
  handle_packets (suc rounds) s [] = waiting s []
  handle_packets (suc rounds) s (b ∷ bs) = elim (frame_var_int (b ∷ bs)) [
    | err e ↦ escaped e
    | ok (len, rest) ↦
        if too_long len (length rest)
        then waiting s (b ∷ bs)
        else if len == 0
        then handle_packets rounds s bs
        else payload (handle_packets rounds) s len rest (b ∷ bs)
  ]
