-- ===== src/WorldStorage/Lights.antt =====
-- cubic-server/world_storage/Section.cpp: the sky light and the block light of a section, four bits
-- each, and the counts of the positions that are lit.
use cubic_server.Common.{
  ℕ, ◌+◌, ◌-◌, ◌%◌, ◌^◌, Bool, not, ◌&&◌, Option, none, some, List, [], ◌∷◌, length, replicate,
  if◌then◌else◌, leb, ◌==◌, Exception, Result, ok, err, out_of_range,
}
use cubic_server.Protocol.Types.{Position}
use cubic_server.WorldStorage.Storage.{DynamicStorage, set_value, get_value}
use cubic_server.WorldStorage.Section.{
  Section, section_width, section_3d_size, position_ge, section_block_idx,
}
use Prim.Native.Nat.{bit_and}

-- `--` and `++` of a uint64_t.
abbrev decrement : ℕ → ℕ
decrement n = (n + (2 ^ 64 - 1)) % 2 ^ 64

abbrev increment : ℕ → ℕ
increment n = (n + 1) % 2 ^ 64

-- The two `if` statements of both setters, by the old and the new light.
abbrev pub recount : ℕ → ℕ → ℕ → ℕ
recount old new n =
    let n' = if not (old == 0) && (new == 0) then decrement n else n in
    if (old == 0) && not (new == 0) then increment n' else n'

abbrev pub light_set :
    (DynamicStorage → Section) → Section → Result DynamicStorage → Section × Option Exception
light_set update s (ok storage) = (update storage, none)
light_set update s (err e) = (s, some e)

-- A call of a getter that throws leaves the section.
abbrev pub with_light :
    Section → Result ℕ → (ℕ → Section × Option Exception) → Section × Option Exception
with_light s (ok light) go = go light
with_light s (err e) go = (s, some e)

unfoldable pub set_sky_light : Section → Position → ℕ → Section × Option Exception
set_sky_light s p light =
    with_light s (get_value 8 section_3d_size s.sky_light (section_block_idx p)) (λ old.
      let s' = record s { sky_light_count = recount old light s.sky_light_count } in
      light_set (λ storage. record s' { sky_light = storage }) s'
        (set_value 8 section_3d_size s.sky_light (section_block_idx p) light))

-- updateSkyLight and updateBlockLight only call the setters.
abbrev update_sky_light : Section → Position → ℕ → Section × Option Exception
update_sky_light s p light = set_sky_light s p light

-- getSkyLight(uint64_t) and getBlockLight(uint64_t).
abbrev pub get_sky_light_at : Section → ℕ → Result ℕ
get_sky_light_at s i = get_value 8 section_3d_size s.sky_light i

abbrev pub get_block_light_at : Section → ℕ → Result ℕ
get_block_light_at s i = get_value 8 section_3d_size s.block_light i

unfoldable pub get_sky_light : Section → Position → Result ℕ
get_sky_light s p =
    if position_ge p section_width
    then err out_of_range
    else get_sky_light_at s (section_block_idx p)

unfoldable pub get_block_light : Section → Position → Result ℕ
get_block_light s p =
    if position_ge p section_width
    then err out_of_range
    else get_block_light_at s (section_block_idx p)

-- The light is read by getBlockLight, which checks the position.
unfoldable pub set_block_light : Section → Position → ℕ → Section × Option Exception
set_block_light s p light = with_light s (get_block_light s p) (λ old.
    let s' = record s { block_light_count = recount old light s.block_light_count } in
    light_set (λ storage. record s' { block_light = storage }) s'
      (set_value 8 section_3d_size s.block_light (section_block_idx p) light))

abbrev update_block_light : Section → Position → ℕ → Section × Option Exception
update_block_light s p light = set_block_light s p light

-- `(i & 0b11110000) >= 1` and `(i & 0b00001111) >= 1`, as numbers.
abbrev pub lit_nibbles : ℕ → ℕ
lit_nibbles i =
    (if leb 1 (bit_and i 0xF0) then 1 else 0) + (if leb 1 (bit_and i 0x0F) then 1 else 0)

-- The loop over the bytes, on a uint64_t.
abbrev pub count_lit : List ℕ → ℕ → ℕ
count_lit [] n = n
count_lit (i ∷ bytes) n = count_lit bytes ((n + lit_nibbles i) % 2 ^ 64)

unfoldable pub recalculate_sky_light_count : Section → Section
recalculate_sky_light_count s = record s { sky_light_count = count_lit s.sky_light.store 0 }

unfoldable pub recalculate_block_light_count : Section → Section
recalculate_block_light_count s = record s { block_light_count = count_lit s.block_light.store 0 }

-- `for (auto &x : data()) x = 0xFF`.
unfoldable pub recalculate_sky_light : Section → Section
recalculate_sky_light s = recalculate_sky_light_count (record s {
  sky_light = record (s.sky_light) { store = replicate (length s.sky_light.store) 0xFF };
})

-- recalculateBlockLight does nothing.
abbrev recalculate_block_light : Section → Section
recalculate_block_light s = s

abbrev has_sky_light : Section → Bool
has_sky_light s = leb 1 s.sky_light_count

abbrev has_block_light : Section → Bool
has_block_light s = leb 1 s.block_light_count
