-- ===== src/WorldStorage/BiomeLimit.antt =====
-- cubic-server/world_storage/Section.cpp, Palette.hpp: what setBiome does once eight biomes are known.
use cubic_server.Common.{
  ℕ, ◌-◌, ◌^◌, ◌≤◌, ◌<◌, ◌≡◌, refl, ap, arith, some, [], ◌∷◌, ◌++◌, length, length-append, lt→leb,
  le→leb, lt→ltb, err, out_of_range,
}
use cubic_server.Protocol.Types.{Position}
use cubic_server.Common.Bits.{pow_pos}
use cubic_server.WorldStorage.Storage.{DynamicStorage, set_value}
use cubic_server.WorldStorage.Entries.{HasData, size_not_zero}
use cubic_server.WorldStorage.Palette.{biome_bits, bits_needed}
use cubic_server.WorldStorage.PaletteLaws.{Absent, add-Absent, get_id-Found, Found-appended}
use cubic_server.WorldStorage.Section.{
  Section, set_biome, biome_section_3d_size, section_biome_idx, keep, store_id,
}
use cubic_server.WorldStorage.Blocks.{Within, Within-accepted, biome_idx-lt}

-- `set` refuses a value that does not fit.
set_value-too_big :
    (w n : ℕ) (s : DynamicStorage) (i v : ℕ)
    → HasData w n s
    → i < n
    → 2 ^ s.value_size ≤ v
    → set_value w n s i v ≡ err out_of_range
unfolding set_value HasData
set_value-too_big w n s i v d h p =
    rw
      (
        size_not_zero w n s d,
        lt→leb n i h,
        le→leb s.value_size 30 d.2,
        lt→ltb (2 ^ s.value_size - 1) v (omega (arith, pow_pos s.value_size)),
      )
      refl

bits_of_nine : biome_bits 9 ≡ 3
unfolding biome_bits bits_needed
bits_of_nine = refl

bits_of_eight : biome_bits 8 ≡ 3
unfolding biome_bits bits_needed
bits_of_eight = refl

-- A section with eight biomes in its palette, stored in 3 bits, refuses a ninth at a position
-- inside it: setBiome throws out_of_range, and the palette has the biome nevertheless.
pub set_biome-ninth :
    (s : Section) (p : Position) (biome : ℕ)
    → HasData 64 biome_section_3d_size s.biomes
    → s.biomes.value_size ≡ 3
    → length s.biome_palette ≡ 8
    → Absent biome s.biome_palette
    → Within 4 p
    → set_biome s p biome
      ≡ (record s { biome_palette = s.biome_palette ++ biome ∷ [] }, some out_of_range)
unfolding set_biome store_id
set_biome-ninth s p biome d z eight absent w =
    rw
      (
        Within-accepted 4 p (omega arith) w,
        add-Absent s.biome_palette biome absent,
        length-append s.biome_palette (biome ∷ []),
        eight,
        bits_of_eight,
        bits_of_nine,
        get_id-Found _ biome _ (Found-appended s.biome_palette biome absent),
        set_value-too_big 64 biome_section_3d_size s.biomes (section_biome_idx p)
            (length s.biome_palette) d (biome_idx-lt p w)
            (omega (arith, eight, ap (λ (t : ℕ). 2 ^ t) z)),
        keep,
      )
      refl
