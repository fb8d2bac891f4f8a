-- ===== src/WorldStorage/Palette.antt =====
-- cubic-server/world_storage/Palette.hpp, Palette.cpp: the numbers that a section's storage holds
-- stand for global ids. A palette is `_nameToId`, each int32_t as its bit pattern.
use cubic_server.Common.{
  ℕ, zero, suc, ◌+◌, ◌-◌, ◌/◌, ◌^◌, Option, none, some, List, [], ◌∷◌, ◌++◌, length, take, get_or,
  if◌then◌else◌, leb, ◌==◌,
}

-- `std::find`, as the index found.
abbrev pub find_from : ℕ → ℕ → List ℕ → Option ℕ
find_from i g [] = none
find_from i g (x ∷ xs) = if x == g then some i else find_from (suc i) g xs

abbrev pub find : ℕ → List ℕ → Option ℕ
find g xs = find_from 0 g xs

-- `return -1` as a uint64_t, where nothing is found.
abbrev index_or_minus_one : Option ℕ → ℕ
index_or_minus_one none = 2 ^ 64 - 1
index_or_minus_one (some i) = i

unfoldable pub get_id : List ℕ → ℕ → ℕ
get_id names g = index_or_minus_one (find g names)

-- -1 is an int32_t here.
unfoldable pub get_global_id : List ℕ → ℕ → ℕ
get_global_id names local =
    if leb (length names) local then 2 ^ 32 - 1 else get_or names local (2 ^ 32 - 1)

unfoldable pub add : List ℕ → ℕ → List ℕ
add names g = add_unless (find g names)
  where
    add_unless : Option ℕ → List ℕ
    add_unless none = names ++ g ∷ []
    add_unless (some i) = names

-- `it != end() && it == end() - 1`: the index of the last entry.
abbrev last_only : List ℕ → Option ℕ → Option ℕ
last_only names none = none
last_only names (some i) = if suc i == length names then some i else none

abbrev erase_at : List ℕ → Option ℕ → List ℕ
erase_at names none = names
erase_at names (some i) = take i names

unfoldable pub remove_all : List ℕ → ℕ → List ℕ
remove_all names g = erase_at names (last_only names (find g names))

-- The loop of `remove`: each round erases an entry, so as many rounds as entries are enough.
abbrev pub remove_loop : ℕ → ℕ → List ℕ → List ℕ
remove_loop zero g names = names
remove_loop (suc rounds) g names = elim (last_only names (find g names)) [
  | none ↦ names
  | some i ↦ remove_loop rounds g (take i names)
]

unfoldable pub remove : List ℕ → ℕ → List ℕ
remove names g = remove_loop (length names) g names

-- `bitsNeeded`, with as many rounds as its argument.
abbrev pub bits_needed_in : ℕ → ℕ → ℕ
bits_needed_in zero n = 0
bits_needed_in (suc rounds) n =
    let rest = bits_needed_in rounds (suc n / 2) in if leb n 1 then 0 else 1 + rest

unfoldable pub bits_needed : ℕ → ℕ
bits_needed n = bits_needed_in n n

-- BlockPalette::getBits and BiomePalette::getBits, by the number of entries.
unfoldable pub block_bits : ℕ → ℕ
block_bits size =
    if leb size 1
    then 0
    else if leb (bits_needed size) 4
    then 4
    else if leb (bits_needed size) 8
    then bits_needed size
    else 15

unfoldable pub biome_bits : ℕ → ℕ
biome_bits size = if leb size 1 then 0 else if leb (bits_needed size) 3 then bits_needed size else 3

-- The constructors of BlockPalette and BiomePalette.
abbrev pub initial_palette : List ℕ
initial_palette = 0 ∷ []
