-- ===== src/WorldStorage/Section.antt =====
-- cubic-server/world_storage/Section.hpp, Section.cpp: the blocks, biomes and lights of 16 x 16 x 16
-- positions.
use cubic_server.Common.{
  ℕ, ◌+◌, ◌*◌, ◌%◌, ◌^◌, Bool, not, ◌&&◌, ◌||◌, Option, none, some, List, [], length, replicate,
  if◌then◌else◌, ltb, leb, ◌==◌, Exception, Result, ok, err, ◌>>=◌, out_of_range,
}
use cubic_server.Protocol.Types.{Position}
use cubic_server.WorldStorage.Storage.{
  DynamicStorage, set_value, get_value, set_value_size, can_contain_data, word_count,
}
use cubic_server.WorldStorage.Palette.{
  get_id, get_global_id, add, block_bits, biome_bits, initial_palette,
}

abbrev pub section_width : ℕ
section_width = 16

abbrev pub section_3d_size : ℕ
section_3d_size = 4096

abbrev biome_section_width : ℕ
biome_section_width = 4

abbrev pub biome_section_3d_size : ℕ
biome_section_3d_size = 64

-- The comparison of an int64_t, given as its bit pattern, with a number.
abbrev signed_ge : ℕ → ℕ → Bool
signed_ge c n = leb n c && ltb c (2 ^ 63)

abbrev signed_negative : ℕ → Bool
signed_negative c = leb (2 ^ 63) c

-- `Position::operator>=` and `Position::operator<` with 0: of all the coordinates at once.
unfoldable pub position_ge : Position → ℕ → Bool
position_ge p n = signed_ge p.x n && signed_ge p.y n && signed_ge p.z n

unfoldable pub position_negative : Position → Bool
position_negative p = signed_negative p.x && signed_negative p.y && signed_negative p.z

-- The sums are taken in int64_t and converted to uint64_t.
unfoldable pub section_block_idx : Position → ℕ
section_block_idx p = (p.x + p.z * 16 + p.y * 256) % 2 ^ 64

unfoldable pub section_biome_idx : Position → ℕ
section_biome_idx p = (p.x + p.z * 4 + p.y * 16) % 2 ^ 64

pub record Section : Type 0 where
  pub blocks : DynamicStorage
  pub biomes : DynamicStorage
  pub block_palette : List ℕ
  pub biome_palette : List ℕ
  pub sky_light : DynamicStorage
  pub block_light : DynamicStorage
  pub sky_light_count : ℕ
  pub block_light_count : ℕ

-- The storages of the default constructor: the sizes 0 and 4 do not throw.
abbrev no_data : DynamicStorage
no_data = record { store = []; value_size = 0 }

abbrev dark : DynamicStorage
dark = record { store = replicate (word_count 8 section_3d_size 4) 0; value_size = 4 }

abbrev pub new_section : Section
new_section = record {
  blocks = no_data;
  biomes = no_data;
  block_palette = initial_palette;
  biome_palette = initial_palette;
  sky_light = dark;
  block_light = dark;
  sky_light_count = 0;
  block_light_count = 0;
}

-- A palette with the storage of the numbers that it gives, and what a call threw. A call that
-- throws leaves what it has changed by then.
pub record Stored : Type 0 where
  pub names : List ℕ
  pub storage : DynamicStorage
  pub thrown : Option Exception

abbrev pub keep : List ℕ → DynamicStorage → Result DynamicStorage → Stored
keep names before (ok after) = record { names = names; storage = after; thrown = none }
keep names before (err e) = record { names = names; storage = before; thrown = some e }

-- `set(idx, palette.getId(id))`, after the change of size.
abbrev pub write_id : ℕ → List ℕ → DynamicStorage → ℕ → ℕ → Result DynamicStorage → Stored
write_id n names before i g (ok resized) =
    keep names resized (set_value 64 n resized i (get_id names g))
write_id n names before i g (err e) = keep names before (err e)

-- `setValueSize(getBits())`, where the new size differs from the old one and is not 0.
abbrev pub resize : ℕ → DynamicStorage → ℕ → ℕ → Result DynamicStorage
resize n storage old_bits bits =
    if not (bits == old_bits) && not (bits == 0)
    then set_value_size 64 n storage bits
    else ok storage

-- The body of setBlock and of setBiome, past the check of the position.
unfoldable pub store_id : (ℕ → ℕ) → ℕ → List ℕ → DynamicStorage → ℕ → ℕ → Stored
store_id bits n names storage i g =
    write_id n (add names g) storage i g
      (resize n storage (bits (length names)) (bits (length (add names g))))

abbrev pub with_blocks : Section → Stored → Section × Option Exception
with_blocks s r = (record s { blocks = r.storage; block_palette = r.names }, r.thrown)

abbrev with_biomes : Section → Stored → Section × Option Exception
with_biomes s r = (record s { biomes = r.storage; biome_palette = r.names }, r.thrown)

unfoldable pub set_block : Section → Position → ℕ → Section × Option Exception
set_block s p block =
    if position_ge p section_width || position_negative p
    then (s, some out_of_range)
    else with_blocks s
        (store_id block_bits section_3d_size s.block_palette s.blocks (section_block_idx p) block)

-- updateBlock checks the position, and calls setBlock.
unfoldable update_block : Section → Position → ℕ → Section × Option Exception
update_block s p block =
    if position_ge p section_width || position_negative p
    then (s, some out_of_range)
    else set_block s p block

unfoldable pub set_biome : Section → Position → ℕ → Section × Option Exception
set_biome s p biome =
    if position_ge p biome_section_width || position_negative p
    then (s, some out_of_range)
    else with_biomes s (
        store_id biome_bits biome_section_3d_size s.biome_palette s.biomes (section_biome_idx p)
          biome)

unfoldable update_biome : Section → Position → ℕ → Section × Option Exception
update_biome s p biome =
    if position_ge p biome_section_width || position_negative p
    then (s, some out_of_range)
    else set_biome s p biome

-- `palette.getGlobalId(storage.get(idx))`, or 0 where there is no data.
unfoldable pub load_id : ℕ → List ℕ → DynamicStorage → ℕ → Result ℕ
load_id n names storage i =
    if can_contain_data storage
    then (get_value 64 n storage i >>= λ local. ok (get_global_id names local))
    else ok 0

-- getBlock(uint64_t) and getBiome(uint64_t).
abbrev get_block_at : Section → ℕ → Result ℕ
get_block_at s i = load_id section_3d_size s.block_palette s.blocks i

abbrev get_biome_at : Section → ℕ → Result ℕ
get_biome_at s i = load_id biome_section_3d_size s.biome_palette s.biomes i

unfoldable pub get_block : Section → Position → Result ℕ
get_block s p =
    if position_ge p section_width then err out_of_range else get_block_at s (section_block_idx p)

unfoldable pub get_biome : Section → Position → Result ℕ
get_biome s p =
    if position_ge p biome_section_width
    then err out_of_range
    else get_biome_at s (section_biome_idx p)
