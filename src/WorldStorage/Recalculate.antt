-- ===== src/WorldStorage/Recalculate.antt =====
-- cubic-server/world_storage/Section.cpp: recalculateSkyLightCount, recalculateBlockLightCount and
-- recalculateSkyLight.
use cubic_server.Common.{
  ℕ, ◌*◌, ◌/◌, ◌%◌, ◌<◌, ◌≡◌, sym, ap, subst, ◌∙◌, arith, false, length, length-replicate,
  replicate, ◌==◌, ==_iff, Bool-cases, inl, inr, ok,
}
use cubic_server.Common.Fields.{field}
use cubic_server.WorldStorage.Storage.{DynamicStorage, word_count}
use cubic_server.WorldStorage.Layout.{replicate-All}
use cubic_server.WorldStorage.Entries.{HasData, get_value-field, word_in_store}
use cubic_server.WorldStorage.Resize.{get_elem?-replicate}
use cubic_server.WorldStorage.Section.{Section, section_3d_size}
use cubic_server.WorldStorage.Lights.{
  count_lit, recalculate_sky_light, recalculate_sky_light_count, recalculate_block_light_count,
  get_sky_light_at,
}
use cubic_server.WorldStorage.LightLaws.{lit_count, Counted}
use cubic_server.WorldStorage.SectionLights.{SkyCounted, BlockCounted}
use cubic_server.WorldStorage.LightCount.{lights, count_lit-lit_count}

section_bytes :
    (lights : DynamicStorage)
    → HasData 8 section_3d_size lights
    → lights.value_size ≡ 4
    → section_3d_size ≡ 2 * length lights.store
unfolding HasData
section_bytes lights d e = omega (arith, d.3, ap (word_count 8 section_3d_size) e)

four_bits :
    (lights : DynamicStorage)
    → lights.value_size ≡ 4
    → lights ≡ record { store = lights.store; value_size = 4 }
four_bits lights e = cc

count_lit-Counted :
    (lights : DynamicStorage)
    → HasData 8 section_3d_size lights
    → lights.value_size ≡ 4
    → Counted section_3d_size (omega arith) lights (count_lit lights.store 0)
count_lit-Counted lights d e = (
  d,
  e,
  count_lit-lit_count section_3d_size lights.store
        (subst (HasData 8 section_3d_size) (four_bits lights e) d) (section_bytes lights d e)
        (omega arith)
      ∙ ap (lit_count section_3d_size) (sym (four_bits lights e)),
)

-- On lights of four bits, recalculateSkyLightCount, which adds up the nibbles of the bytes that
-- are not 0, gives the count of the lit positions.
pub recalculate_sky_light_count-SkyCounted :
    (s : Section)
    → HasData 8 section_3d_size s.sky_light
    → s.sky_light.value_size ≡ 4
    → SkyCounted (recalculate_sky_light_count s)
unfolding recalculate_sky_light_count
recalculate_sky_light_count-SkyCounted s d e = count_lit-Counted s.sky_light d e

pub recalculate_block_light_count-BlockCounted :
    (s : Section)
    → HasData 8 section_3d_size s.block_light
    → s.block_light.value_size ≡ 4
    → BlockCounted (recalculate_block_light_count s)
unfolding recalculate_block_light_count
recalculate_block_light_count-BlockCounted s d e = count_lit-Counted s.block_light d e

full_nibble : (i : ℕ) → field 4 (i % 2 * 4) 255 ≡ 15
full_nibble i = elim (Bool-cases (i % 2 == 0)) [
  | inl e ↦ ap (λ (t : ℕ). field 4 (t * 4) 255) ((==_iff (i % 2) 0).0 e)
  | inr e ↦ ap (λ (t : ℕ). field 4 (t * 4) 255) (odd i e)
]
  where
    odd : (i : ℕ) → (i % 2 == 0) ≡ false → i % 2 ≡ 1
    odd i e = ground arith

filled-HasData :
    (lights : DynamicStorage)
    → HasData 8 section_3d_size lights
    → HasData 8 section_3d_size (record lights { store = replicate (length lights.store) 0xFF })
unfolding HasData
filled-HasData lights d = (
  d.0,
  d.1,
  d.2,
  length-replicate (length lights.store) 0xFF ∙ d.3,
  replicate-All (λ x. x < 256) (length lights.store) 0xFF (omega arith),
)

-- On lights of four bits, recalculateSkyLight lights every position with 15, and the count is
-- that of the lit positions.
pub recalculate_sky_light-full :
    (s : Section)
    → HasData 8 section_3d_size s.sky_light
    → s.sky_light.value_size ≡ 4
    → SkyCounted (recalculate_sky_light s)
      × ((i : ℕ) → i < section_3d_size → get_sky_light_at (recalculate_sky_light s) i ≡ ok 15)
unfolding recalculate_sky_light recalculate_sky_light_count
recalculate_sky_light-full s d e = (
  count_lit-Counted _ (filled-HasData s.sky_light d) e,
  λ i h.
      get_value-field 8 section_3d_size _ i 255 (filled-HasData s.sky_light d) h
        (get_elem?-replicate _ _ 255 (word_in_store 8 section_3d_size s.sky_light i d h))
      ∙ ap ok (ap (λ (t : ℕ). field t (i % (8 / t) * t) 255) e ∙ full_nibble i),
)
