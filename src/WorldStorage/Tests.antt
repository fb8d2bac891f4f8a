-- ===== src/WorldStorage/Tests.antt =====
-- Small storages, palettes and sections through the code of world_storage.
use cubic_server.Common.{
  ℕ, suc, ◌^◌, ◌≡◌, ◌≢◌, ◌≤◌, ◌<◌, refl, inl, arith, none, some, List, [], ◌∷◌, length, ok,
  out_of_range,
}
use cubic_server.Protocol.Types.{Position}
use cubic_server.WorldStorage.Storage.{DynamicStorage, set_value, get_value, set_value_size}
use cubic_server.WorldStorage.Entries.{HasData, set_value-get_value}
use cubic_server.WorldStorage.Resize.{grows-FitsIn, set_value_size-keeps, zeros, zeros-HasData}
use cubic_server.WorldStorage.Palette.{get_id, get_global_id, add, remove, remove_all, bits_needed}
use cubic_server.WorldStorage.PaletteLaws.{add-get_id, remove-remove_all}
use cubic_server.WorldStorage.PaletteBits.{bits_needed-least}
use cubic_server.WorldStorage.Section.{
  Section, new_section, set_block, get_block, set_biome, get_biome, biome_section_3d_size,
  section_3d_size,
}
use cubic_server.WorldStorage.Store.{Together}
use cubic_server.WorldStorage.Blocks.{
  Within, BlocksTogether, BiomesTogether, set_block-get_block, set_biome-get_biome,
  set_block-next_row,
}
use cubic_server.WorldStorage.Lights.{
  set_sky_light, get_sky_light, set_block_light, get_block_light, recalculate_sky_light_count,
  recalculate_block_light_count, recalculate_sky_light, get_sky_light_at,
}
use cubic_server.WorldStorage.SectionLights.{
  SkyCounted, BlockCounted, set_sky_light-get_sky_light, set_block_light-get_block_light,
}
use cubic_server.WorldStorage.Recalculate.{
  recalculate_sky_light_count-SkyCounted, recalculate_block_light_count-BlockCounted,
  recalculate_sky_light-full,
}
use cubic_server.WorldStorage.BiomeLimit.{set_biome-ninth}

-- Four values of four bits in two bytes: 1, 2, 3, 4.
abbrev four_values : DynamicStorage
four_values = record { store = 0x21 ∷ 0x43 ∷ []; value_size = 4 }

four_values-HasData : HasData 8 4 four_values
unfolding HasData
four_values-HasData =
    (omega arith, omega arith, omega arith, refl, (omega arith, (omega arith, tt)))

set_value-get_value_example :
    (s' : DynamicStorage) × (set_value 8 4 four_values 2 9 ≡ ok s')
    × HasData 8 4 s'
    × (s'.value_size ≡ 4)
    × (get_value 8 4 s' 2 ≡ ok 9)
    × ((j : ℕ) → j < 4 → 2 ≢ j → get_value 8 4 s' j ≡ get_value 8 4 four_values j)
set_value-get_value_example =
    set_value-get_value 8 4 four_values 2 9 four_values-HasData (omega arith) (omega arith)

set_value_size-keeps_example :
    (s' : DynamicStorage) × (set_value_size 8 4 four_values 6 ≡ ok s')
    × HasData 8 4 s'
    × (s'.value_size ≡ 6)
    × ((j : ℕ) → j < 4 → get_value 8 4 s' j ≡ get_value 8 4 four_values j)
set_value_size-keeps_example =
    set_value_size-keeps 8 4 four_values 6 four_values-HasData (omega arith) (omega arith)
      (omega arith) (grows-FitsIn 8 4 four_values 6 four_values-HasData (omega arith))

abbrev some_names : List ℕ
some_names = 0 ∷ 5 ∷ 9 ∷ []

add-get_id_example :
    (get_id (add some_names 7) 7 < length (add some_names 7))
    × (get_global_id (add some_names 7) (get_id (add some_names 7) 7) ≡ 7)
    × (length some_names ≤ length (add some_names 7))
    × (length (add some_names 7) ≤ suc (length some_names))
    × ((i : ℕ)
        → i < length some_names
        → get_global_id (add some_names 7) i ≡ get_global_id some_names i)
add-get_id_example = add-get_id some_names 7

remove-remove_all_example : remove some_names 9 ≡ remove_all some_names 9
remove-remove_all_example = remove-remove_all some_names 9

bits_needed-least_example : (17 ≤ 2 ^ bits_needed 17) × ((k : ℕ) → 17 ≤ 2 ^ k → bits_needed 17 ≤ k)
bits_needed-least_example = bits_needed-least 17

abbrev corner : Position
corner = record { x = 3; y = 2; z = 1 }

new_section-BlocksTogether : BlocksTogether new_section
unfolding Together
new_section-BlocksTogether = inl (refl, refl)

new_section-BiomesTogether : BiomesTogether new_section
unfolding Together
new_section-BiomesTogether = inl (refl, refl)

names_short : (g : ℕ) → length (add (0 ∷ []) g) ≤ 8
names_short g = omega (arith, (add-get_id (0 ∷ []) g).3)

set_block-get_block_example :
    ((set_block new_section corner 42).1 ≡ none)
    × BlocksTogether (set_block new_section corner 42).0
    × (get_block (set_block new_section corner 42).0 corner ≡ ok 42)
    × ((q : Position)
        → Within 16 q
        → corner ≢ q
        → get_block (set_block new_section corner 42).0 q ≡ get_block new_section q)
set_block-get_block_example =
    set_block-get_block new_section corner 42 new_section-BlocksTogether
      (omega arith, omega arith, omega arith) (omega (arith, names_short 42))

set_biome-get_biome_example :
    ((set_biome new_section corner 4).1 ≡ none)
    × BiomesTogether (set_biome new_section corner 4).0
    × (get_biome (set_biome new_section corner 4).0 corner ≡ ok 4)
    × ((q : Position)
        → Within 4 q
        → corner ≢ q
        → get_biome (set_biome new_section corner 4).0 q ≡ get_biome new_section q)
set_biome-get_biome_example =
    set_biome-get_biome new_section corner 4 new_section-BiomesTogether
      (omega arith, omega arith, omega arith) (names_short 4)

set_block-next_row_example :
    set_block new_section (record { x = 16; y = 2; z = 3 }) 42
    ≡ set_block new_section (record { x = 0; y = 2; z = 4 }) 42
set_block-next_row_example = set_block-next_row new_section 2 3 42 (omega arith)

new_section-HasData : HasData 8 section_3d_size new_section.sky_light
new_section-HasData = zeros-HasData 8 section_3d_size 4 (omega arith) (omega arith) (omega arith)

recalculate_sky_light_count-SkyCounted_example :
    SkyCounted (recalculate_sky_light_count new_section)
recalculate_sky_light_count-SkyCounted_example =
    recalculate_sky_light_count-SkyCounted new_section new_section-HasData refl

recalculate_block_light_count-BlockCounted_example :
    BlockCounted (recalculate_block_light_count new_section)
recalculate_block_light_count-BlockCounted_example =
    recalculate_block_light_count-BlockCounted new_section new_section-HasData refl

recalculate_sky_light-full_example :
    SkyCounted (recalculate_sky_light new_section)
    × ((i : ℕ)
        → i < section_3d_size
        → get_sky_light_at (recalculate_sky_light new_section) i ≡ ok 15)
recalculate_sky_light-full_example = recalculate_sky_light-full new_section new_section-HasData refl

abbrev counted : Section
counted = recalculate_block_light_count (recalculate_sky_light_count new_section)

counted-SkyCounted : SkyCounted counted
unfolding recalculate_block_light_count
counted-SkyCounted = recalculate_sky_light_count-SkyCounted new_section new_section-HasData refl

set_sky_light-get_sky_light_example :
    ((set_sky_light counted corner 7).1 ≡ none)
    × SkyCounted (set_sky_light counted corner 7).0
    × (get_sky_light (set_sky_light counted corner 7).0 corner ≡ ok 7)
    × ((q : Position)
        → Within 16 q
        → corner ≢ q
        → get_sky_light (set_sky_light counted corner 7).0 q ≡ get_sky_light counted q)
set_sky_light-get_sky_light_example =
    set_sky_light-get_sky_light counted corner 7 counted-SkyCounted
      (omega arith, omega arith, omega arith) (omega arith)

counted-BlockCounted : BlockCounted counted
unfolding recalculate_sky_light_count
counted-BlockCounted =
    recalculate_block_light_count-BlockCounted (recalculate_sky_light_count new_section)
      new_section-HasData refl

set_block_light-get_block_light_example :
    ((set_block_light counted corner 7).1 ≡ none)
    × BlockCounted (set_block_light counted corner 7).0
    × (get_block_light (set_block_light counted corner 7).0 corner ≡ ok 7)
    × ((q : Position)
        → Within 16 q
        → corner ≢ q
        → get_block_light (set_block_light counted corner 7).0 q ≡ get_block_light counted q)
set_block_light-get_block_light_example =
    set_block_light-get_block_light counted corner 7 counted-BlockCounted
      (omega arith, omega arith, omega arith) (omega arith)

-- A section that knows the biomes 0 to 7.
abbrev eight_biomes : Section
eight_biomes = record new_section {
  biome_palette = 0 ∷ 1 ∷ 2 ∷ 3 ∷ 4 ∷ 5 ∷ 6 ∷ 7 ∷ [];
  biomes = zeros 64 biome_section_3d_size 3;
}

set_biome-ninth_example : set_biome eight_biomes corner 8 ≡ (
  record eight_biomes { biome_palette = 0 ∷ 1 ∷ 2 ∷ 3 ∷ 4 ∷ 5 ∷ 6 ∷ 7 ∷ 8 ∷ [] },
  some out_of_range,
)
set_biome-ninth_example =
    set_biome-ninth eight_biomes corner 8
      (zeros-HasData 64 biome_section_3d_size 3 (omega arith) (omega arith) (omega arith)) refl refl
      refl (omega arith, omega arith, omega arith)
