-- ===== src/Nbt/Tests.antt =====
-- A compound tag through the NBT code.
use cubic_server.Common.{ℕ, ◌≡◌, refl, List, [], ◌∷◌, ◌++◌, arith, true, ok}
use cubic_server.Nbt.Tag.{Tag, byte, list, compound, int_array, nil, cons}
use cubic_server.Nbt.Serialize.{serialize}
use cubic_server.Nbt.Parser.{parsed}
use cubic_server.Nbt.Parse.{parse}
use cubic_server.Common.{◌^◌, ◌⊎◌, false, some, none, signed_overflow}
use cubic_server.Protocol.Add.{be_bytes}
use cubic_server.Nbt.Tag.{name_of, Tags}
use cubic_server.Nbt.Parser.{thrown}
use cubic_server.Nbt.Parse.{parse_int_array, parse_long_array}
use cubic_server.Nbt.Lookup.{has_value, get_value, has_value-get_value}
use cubic_server.Nbt.Change.{add_value, found_in, values_of, add_value-found_in}
use cubic_server.Nbt.Overflow.{arrays_overflow}
use cubic_server.Nbt.Valid.{Valid}
use cubic_server.Nbt.RoundTrip.{parse-serialize}

-- A compound "a" with a list of two compounds and an array of two numbers.
abbrev sample : Tag
sample = compound (97 ∷ []) (
    cons
      (list (98 ∷ [])
        (cons (compound [] (cons (byte (99 ∷ []) 7) nil)) (cons (compound [] nil) nil)))
      (cons (int_array (100 ∷ []) (1 ∷ 0xfffffffe ∷ [])) nil))

sample-Valid : Valid sample
sample-Valid = (
  omega arith,
  (
    (
      omega arith,
      omega arith,
      omega arith,
      (
        refl,
        refl,
        (omega arith, ((omega arith, omega arith), tt)),
        (refl, refl, (omega arith, tt), tt),
      ),
    ),
    ((omega arith, omega arith, (omega arith, (omega arith, tt))), tt),
  ),
)

parse-serialize_example :
    (bytes : List ℕ) × (serialize true sample ≡ ok bytes)
    × (parse (bytes ++ 5 ∷ []) ≡ parsed sample (5 ∷ []))
parse-serialize_example = parse-serialize sample (5 ∷ []) sample-Valid

abbrev entries : Tags
entries = cons (byte (99 ∷ []) 7) (cons (byte (100 ∷ []) 8) nil)

has_value-get_value_example :
    ((has_value entries (100 ∷ []) ≡ true)
      × ((t : Tag) × (get_value entries (100 ∷ []) ≡ some t) × (name_of t ≡ 100 ∷ [])))
    ⊎ ((has_value entries (100 ∷ []) ≡ false) × (get_value entries (100 ∷ []) ≡ none))
has_value-get_value_example = has_value-get_value entries (100 ∷ [])

arrays_overflow_example :
    (parse_int_array false true (be_bytes 4 (2 ^ 29) ++ 1 ∷ []) ≡ thrown signed_overflow)
    × (parse_long_array false true (be_bytes 4 (2 ^ 29) ++ 1 ∷ []) ≡ thrown signed_overflow)
arrays_overflow_example = arrays_overflow (2 ^ 29) (1 ∷ []) (omega arith) (omega arith)

add_value-found_in_example :
    (found_in (add_value (compound [] entries) (byte (101 ∷ []) 9)) (101 ∷ [])
      ≡ some (byte (101 ∷ []) 9))
    × (values_of (add_value (compound [] entries) (byte (101 ∷ []) 9)) ≡ 3)
unfolding get_value
add_value-found_in_example = add_value-found_in [] entries (byte (101 ∷ []) 9) (101 ∷ [])
