-- ===== src/Protocol/Pop.antt =====
-- cubic-server/protocol/serialization/popPrimaryType.hpp: each function reads from the cursor.
use cubic_server.Common.{
  ℕ, zero, suc, ◌+◌, ◌-◌, ◌*◌, ◌/◌, ◌%◌, ◌^◌, Bool, true, false, not, ◌&&◌, List, [], ◌∷◌, ◌++◌,
  ltb, leb, ◌==◌, if◌then◌else◌, length, take, drop, Result, ok, err, packet_eof, varint_overflow,
  out_of_range_boolean, length_error, undefined,
}
use cubic_server.Common.Words.{shl, shr, sar64}
use cubic_server.Protocol.Cursor.{Pop, pure, ◌>>=◌}
use cubic_server.Protocol.Types.{Slot, U128, Position}
use Prim.Native.Nat.{bit_and, bit_or, min}

unfoldable pub pop_byte : Pop ℕ
pop_byte [] = err packet_eof
pop_byte (b ∷ rest) = ok (b, rest)

unfoldable pub pop_boolean : Pop Bool
unfolding pop_byte
pop_boolean = do
  value ← pop_byte
  if not (value == 0) && not (value == 1)
      then (λ _. err out_of_range_boolean)
      else pure (value == 1)

-- `value = *(at + 1) | (*at << 8)`
unfoldable pub short_of : List ℕ → Result (ℕ × List ℕ)
short_of (a ∷ b ∷ rest) = ok (bit_or b (shl 16 a 8), rest)
short_of _ = err undefined

unfoldable pub pop_short : Pop ℕ
unfolding short_of
pop_short bs = if ltb (length bs) 2 then err packet_eof else short_of bs

-- `for (i = 0; i < n; i++) value = (value << 8) + *at++;` on a w-bit value.
unfoldable pub pop_be : ℕ → ℕ → ℕ → Pop ℕ
pop_be w zero value bs = ok (value, bs)
pop_be w (suc n) value [] = err undefined
pop_be w (suc n) value (b ∷ rest) = pop_be w n ((shl w value 8 + b) % 2 ^ w) rest

unfoldable pub pop_int : Pop ℕ
pop_int bs = if ltb (length bs) 4 then err packet_eof else pop_be 32 4 0 bs

unfoldable pub pop_long : Pop ℕ
pop_long bs = if ltb (length bs) 8 then err packet_eof else pop_be 64 8 0 bs

-- The loop of `popVarInt` (w = 32) and of `popVarLong` (w = 64).
unfoldable pub pop_var_loop : ℕ → List ℕ → ℕ → ℕ → Result (ℕ × List ℕ)
pop_var_loop w [] value position = err packet_eof
pop_var_loop w (b ∷ rest) value position =
    let value' = bit_or value (shl w (bit_and b 0x7f) position) in
    let more = pop_var_loop w rest value' (position + 7) in
    if bit_and b 0x80 == 0
    then ok (value', rest)
    else if leb w (position + 7)
    then err varint_overflow
    else more

unfoldable pub pop_var_int : Pop ℕ
unfolding pop_var_loop
pop_var_int bs = pop_var_loop 32 bs 0 0

unfoldable pub pop_var_long : Pop ℕ
unfolding pop_var_loop
pop_var_long bs = pop_var_loop 64 bs 0 0

-- Four or eight bytes as the word that they are in memory, the lowest byte first.
unfoldable from_le : List ℕ → ℕ
from_le [] = 0
from_le (b ∷ bs) = b + 256 * from_le bs

-- The word whose bytes in memory are those of the input from the highest on.
unfoldable ntoh32 : ℕ → ℕ
unfolding from_le
ntoh32 v = from_le ((shr v 24 % 256) ∷ (shr v 16 % 256) ∷ (shr v 8 % 256) ∷ (shr v 0 % 256) ∷ [])

unfoldable ntoh64 : ℕ → ℕ
unfolding from_le
ntoh64 v = from_le (
    (shr v 56 % 256)
    ∷ (shr v 48 % 256)
    ∷ (shr v 40 % 256)
    ∷ (shr v 32 % 256)
    ∷ (shr v 24 % 256)
    ∷ (shr v 16 % 256)
    ∷ (shr v 8 % 256)
    ∷ (shr v 0 % 256)
    ∷ [])

unfoldable pub pop_float : Pop ℕ
unfolding from_le ntoh32
pop_float bs =
    if ltb (length bs) 4 then err packet_eof else ok (ntoh32 (from_le (take 4 bs)), drop 4 bs)

unfoldable pub pop_double : Pop ℕ
unfolding from_le ntoh64
pop_double bs =
    if ltb (length bs) 8 then err packet_eof else ok (ntoh64 (from_le (take 8 bs)), drop 8 bs)

-- A negative size passes the test, and `std::string value(at, at + size)` throws.
unfoldable pub pop_string : Pop (List ℕ)
pop_string = do
  size ← pop_var_int
  λ bs.
      if leb (2 ^ 31) size
      then err length_error
      else if ltb (length bs) size
      then err packet_eof
      else ok (take size bs, drop size bs)

unfoldable pop_chat : Pop (List ℕ)
unfolding pop_string
pop_chat = pop_string

-- A default Slot, and one that was read.
abbrev pub no_slot : Slot
no_slot = record { present = false; item_id = 0; item_count = 0 }

unfoldable pub pop_slot_body : Pop Slot
pop_slot_body = do
  item_id ← pop_var_int
  item_count ← pop_byte
  nbt ← pop_byte
  pure (record { present = true; item_id = item_id; item_count = item_count })

unfoldable pub pop_slot : Pop Slot
pop_slot = do present ← pop_boolean; if present then pop_slot_body else pure no_slot

unfoldable pub pop_uuid_words : Pop U128
pop_uuid_words = do most ← pop_long; least ← pop_long; pure (record { most = most; least = least })

unfoldable pub pop_uuid : Pop U128
pop_uuid bs = if ltb (length bs) 16 then err packet_eof else pop_uuid_words bs

-- `for (int i = 0; i < length; i++) array.push_back(pop(at, eof));`
unfoldable pub pop_each {ℓ} : {A : Type ℓ} → Pop A → ℕ → List A → Pop (List A)
pop_each pop zero array = pure array
pop_each pop (suc n) array = do a ← pop; pop_each pop n (array ++ (a ∷ []))

unfoldable pub pop_array {ℓ} : {A : Type ℓ} → Pop A → Pop (List A)
pop_array pop = do length ← pop_var_int; pop_each pop (if leb (2 ^ 31) length then 0 else length) []

-- `h` is an int64_t: `>>` copies its sign bit.
unfoldable pub pop_position : Pop Position
pop_position = do
  h ← pop_long
  pure (record { x = sar64 h 38; z = sar64 (shl 64 h 26) 38; y = sar64 (shl 64 h 52) 52 })

-- The bits i, i + 1, … of one byte, n of them: `result[bit + i] = byte & (1 >> i)`.
unfoldable pub bits_of_byte : ℕ → ℕ → ℕ → List Bool
bits_of_byte zero i byte = []
bits_of_byte (suc n) i byte = not (bit_and byte (shr 1 i) == 0) ∷ bits_of_byte n (i + 1) byte

-- `left` bits are still to be read, eight to a round.
unfoldable pub pop_bit_set_loop : ℕ → ℕ → List Bool → Pop (List Bool)
unfolding bits_of_byte
pop_bit_set_loop zero left result bs = ok (result, bs)
pop_bit_set_loop (suc n) left result [] = err packet_eof
pop_bit_set_loop (suc n) left result (byte ∷ rest) =
    pop_bit_set_loop n (left - 8) (result ++ bits_of_byte (min 8 left) 0 byte) rest

unfoldable pub pop_bit_set : ℕ → Pop (List Bool)
unfolding pop_bit_set_loop
pop_bit_set size = pop_bit_set_loop ((size + 7) / 8) size []
