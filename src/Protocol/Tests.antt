-- ===== src/Protocol/Tests.antt =====
-- Concrete values through the protocol's functions.
use cubic_server.Common.{
  ℕ, ◌-◌, ◌^◌, ◌≡◌, ◌<◌, refl, List, [], ◌∷◌, ◌++◌, Bool, true, false, length, get_elem?, some, ok,
  arith, ◌%◌,
}
use cubic_server.Protocol.Types.{Slot, U128, Position}
use cubic_server.Protocol.Cursor.{Codec}
use cubic_server.Protocol.Add.{add_var_int, add_array}
use cubic_server.Protocol.Pop.{pop_var_int, pop_array, pop_bit_set}
use cubic_server.Protocol.RoundTrip.VarInt.{
  var_bytes, add_var_int-var_bytes, pop_var_int-add_var_int,
}
use cubic_server.Protocol.RoundTrip.Values.{add_var_int-append}
use cubic_server.Protocol.RoundTrip.Arrays.{pop_array-add_array}
use cubic_server.Protocol.BitSet.{pop_bit_set_drops_bits}

-- Arrays of VarInts.
abbrev var_ints : Codec ℕ
var_ints = record {
  add = add_var_int;
  pop = pop_var_int;
  Valid = λ v. v < 2 ^ 32;
  add-append = λ out v h. add_var_int-append out v (omega arith);
  pop-add = λ v rest h. pop_var_int-add_var_int v rest h;
}

abbrev three_numbers : List ℕ
three_numbers = 1 ∷ 300 ∷ 0xffffffff ∷ []

pop_array-add_array_example :
    pop_array pop_var_int (add_array add_var_int [] three_numbers ++ 7 ∷ [])
    ≡ ok (three_numbers, 7 ∷ [])
pop_array-add_array_example =
    pop_array-add_array var_ints three_numbers (7 ∷ [])
      (omega arith, (omega arith, (omega arith, tt))) (omega arith)

pop_var_int-add_var_int_example : pop_var_int (add_var_int [] 300 ++ 9 ∷ []) ≡ ok (300, 9 ∷ [])
pop_var_int-add_var_int_example = pop_var_int-add_var_int 300 (9 ∷ []) (omega arith)

add_var_int-var_bytes_example : add_var_int (5 ∷ []) 300 ≡ (5 ∷ []) ++ var_bytes 9 300
add_var_int-var_bytes_example = add_var_int-var_bytes (5 ∷ []) 300 (omega arith)

abbrev greeting : List ℕ
greeting = 104 ∷ 105 ∷ []

abbrev two_swords : Slot
two_swords = record { present = true; item_id = 276; item_count = 2 }

abbrev some_uuid : U128
some_uuid = record { most = 12; least = 2 ^ 64 - 1 }

-- x = 100, y = -1, z = -20.
abbrev below_ground : Position
below_ground = record { x = 100; y = 2 ^ 64 - 1; z = 2 ^ 64 - 20 }

-- Sixteen bits from two bytes of ones: only the first bit of each byte is set.
abbrev sixteen_bits : List Bool
sixteen_bits =
    true ∷ false ∷ false ∷ false ∷ false ∷ false ∷ false ∷ false ∷ true ∷ false ∷ false ∷ false
    ∷ false ∷ false ∷ false ∷ false ∷ []

sixteen_bits_read : pop_bit_set 16 (255 ∷ 255 ∷ []) ≡ ok (sixteen_bits, [])
unfolding pop_bit_set
sixteen_bits_read = refl

pop_bit_set_drops_bits_example :
    (length sixteen_bits ≡ 16) × (get_elem? sixteen_bits 8 ≡ some true → 8 % 8 ≡ 0)
pop_bit_set_drops_bits_example =
    pop_bit_set_drops_bits 16 8 (255 ∷ 255 ∷ []) sixteen_bits [] sixteen_bits_read
