-- ===== src/Protocol/Add.antt =====
-- cubic-server/protocol/serialization/addPrimaryType.hpp: each function takes the buffer and returns
-- it with the bytes appended. A `std::string` is the list of its bytes.
use cubic_server.Common.{
  ℕ, zero, suc, ◌/◌, ◌%◌, ◌^◌, ◌<◌, Bool, List, [], ◌∷◌, ◌++◌, arith, dec_lt, ltb, if◌then◌else◌,
  length, Result, ok, err, max_length_string,
}
use cubic_server.Common.Words.{shl, shr}
use cubic_server.Common.Order.{lt_wf}
use cubic_server.Protocol.Types.{Slot, U128, Position}
use Prim.Native.Nat.{bit_and, bit_or}
use mathlib.Core.Logic.{dite}
use mathlib.Core.WellFounded.{Acc}

unfoldable add_byte : List ℕ → ℕ → List ℕ
add_byte out v = out ++ (v ∷ [])

unfoldable pub add_boolean : List ℕ → Bool → List ℕ
unfolding add_byte
add_boolean out v = if v then add_byte out 1 else add_byte out 0

-- The n bytes of a word from the highest on: `(data >> (8 * (n - 1 - i))) & 0xFF` for i from 0.
unfoldable pub be_bytes : ℕ → ℕ → List ℕ
be_bytes zero v = []
be_bytes (suc n) v = (v / 256 ^ n % 256) ∷ be_bytes n v

-- `addShort` and `addUShort`.
unfoldable pub add_short : List ℕ → ℕ → List ℕ
add_short out v = out ++ (shr v 8 % 256) ∷ (v % 256) ∷ []

unfoldable pub add_int : List ℕ → ℕ → List ℕ
add_int out v = out ++ be_bytes 4 v

-- `addLong` and `addUnsignedLong`.
unfoldable pub add_long : List ℕ → ℕ → List ℕ
add_long out v = out ++ be_bytes 8 v

pub shift_shrinks : (v : ℕ) → 0 < v / 128 → v / 128 < v
shift_shrinks v h = omega arith

-- `value & ~SEGMENT_BITS` is 0 when no bit stands above the lowest seven.
unfoldable pub add_var_loop : List ℕ → (v : ℕ) → Acc ◌<◌ v → List ℕ
add_var_loop out v (Acc.intro _ smaller) =
    dite (dec_lt 0 (shr v 7))
      (λ more.
        add_var_loop (out ++ (bit_or (bit_and v 0x7f) 0x80 ∷ [])) (shr v 7)
          (smaller _ (shift_shrinks v more)))
      (λ _. out ++ (v ∷ []))

-- `addVarInt`, and `addVarLong`, which differs in the width of its argument alone.
unfoldable pub add_var_int : List ℕ → ℕ → List ℕ
unfolding add_var_loop lt_wf
add_var_int out v = add_var_loop out v (lt_wf.apply v)

-- The union of a float with its bytes, on a machine that stores the lowest byte first.
unfoldable pub le_bytes : ℕ → ℕ → List ℕ
le_bytes zero v = []
le_bytes (suc n) v = (v % 256) ∷ le_bytes n (v / 256)

-- `for (int i = n - 1; i >= 0; i--) out.push_back(d.u[i])`
unfoldable pub push_reversed : List ℕ → List ℕ → List ℕ
push_reversed out [] = out
push_reversed out (b ∷ u) = push_reversed out u ++ (b ∷ [])

-- A float is its bit pattern.
unfoldable pub add_float : List ℕ → ℕ → List ℕ
unfolding le_bytes push_reversed
add_float out v = push_reversed out (le_bytes 4 v)

unfoldable pub add_double : List ℕ → ℕ → List ℕ
unfolding le_bytes push_reversed
add_double out v = push_reversed out (le_bytes 8 v)

unfoldable pub add_sized_string : List ℕ → List ℕ → ℕ → Result (List ℕ)
add_sized_string out s max_size =
    if ltb max_size (length s) then err max_length_string else ok (add_var_int out (length s) ++ s)

abbrev pub max_string_size : ℕ
max_string_size = 32767

abbrev max_chat_size : ℕ
max_chat_size = 262144

unfoldable pub add_string : List ℕ → List ℕ → Result (List ℕ)
unfolding add_sized_string
add_string out s = add_sized_string out s max_string_size

unfoldable add_chat : List ℕ → List ℕ → Result (List ℕ)
unfolding add_sized_string
add_chat out s = add_sized_string out s max_chat_size

unfoldable pub add_slot : List ℕ → Slot → List ℕ
unfolding add_boolean add_byte
add_slot out s =
    let out1 = add_boolean out s.present in
    if s.present then add_byte (add_byte (add_var_int out1 s.item_id) s.item_count) 0 else out1

unfoldable pub add_uuid : List ℕ → U128 → List ℕ
add_uuid out u = add_long (add_long out u.most) u.least

unfoldable pub add_each {ℓ} : {A : Type ℓ} → (List ℕ → A → List ℕ) → List ℕ → List A → List ℕ
add_each add out [] = out
add_each add out (x ∷ xs) = add_each add (add out x) xs

unfoldable pub add_array {ℓ} : {A : Type ℓ} → (List ℕ → A → List ℕ) → List ℕ → List A → List ℕ
add_array add out xs = add_each add (add_var_int out (length xs % 2 ^ 32)) xs

unfoldable pub add_position : List ℕ → Position → List ℕ
add_position out p = add_long out (
    bit_or (bit_or (shl 64 (bit_and p.x 0x3ffffff) 38) (shl 64 (bit_and p.z 0x3ffffff) 12))
      (bit_and p.y 0xfff))
