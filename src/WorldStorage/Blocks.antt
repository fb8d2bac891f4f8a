-- ===== src/WorldStorage/Blocks.antt =====
-- cubic-server/world_storage/Section.cpp: setBlock and getBlock, setBiome and getBiome.
use cubic_server.Common.{
  ℕ, suc, ◌+◌, ◌*◌, ◌%◌, ◌^◌, ◌≤◌, ◌<◌, ◌≡◌, ◌≢◌, refl, sym, ap, ◌∙◌, arith, false, ◌||◌, none,
  length, lt→leb, ok,
}
use cubic_server.Protocol.Types.{Position}
use cubic_server.WorldStorage.Palette.{add, block_bits, biome_bits}
use cubic_server.WorldStorage.PaletteBits.{block_bits-Counts, biome_bits-Counts}
use cubic_server.WorldStorage.Section.{
  Section, section_3d_size, biome_section_3d_size, position_ge, position_negative,
  section_block_idx, section_biome_idx, set_block, get_block, set_biome, get_biome, with_blocks,
  store_id, load_id,
}
use cubic_server.WorldStorage.Store.{Together, store_id-Holds}
use native.Mathlib.Nat.{mod-eq_of_lt}

-- A position each of whose coordinates is below `width`.
abbrev pub Within : ℕ → Position → Type 0
Within width p = (p.x < width) × (p.y < width) × (p.z < width)

pub Within-accepted :
    (width : ℕ) (p : Position)
    → width ≤ 16
    → Within width p
    → (position_ge p width || position_negative p) ≡ false
unfolding position_ge position_negative
Within-accepted width p w (a, b, c) =
    rw (lt→leb width p.x a, lt→leb (2 ^ 63) p.x (omega arith)) refl

position_eq : (p q : Position) → p.x ≡ q.x → p.y ≡ q.y → p.z ≡ q.z → p ≡ q
position_eq p q a b c = cc

block_idx-below : (p : Position) → Within 16 p → section_block_idx p ≡ p.x + p.z * 16 + p.y * 256
unfolding section_block_idx
block_idx-below p (a, b, c) = mod-eq_of_lt (omega arith)

biome_idx-below : (p : Position) → Within 4 p → section_biome_idx p ≡ p.x + p.z * 4 + p.y * 16
unfolding section_biome_idx
biome_idx-below p (a, b, c) = mod-eq_of_lt (omega arith)

pub block_idx-lt : (p : Position) → Within 16 p → section_block_idx p < section_3d_size
block_idx-lt p w = omega (arith, block_idx-below p w, w.0, w.1, w.2)

pub biome_idx-lt : (p : Position) → Within 4 p → section_biome_idx p < biome_section_3d_size
biome_idx-lt p w = omega (arith, biome_idx-below p w, w.0, w.1, w.2)

-- Different positions of a section have different indices.
pub block_idx-injective :
    (p q : Position) → Within 16 p → Within 16 q → section_block_idx p ≡ section_block_idx q → p ≡ q
block_idx-injective p q w v e =
    position_eq p q (omega (arith, flat, w.0, w.1, w.2, v.0, v.1, v.2))
      (omega (arith, flat, w.0, w.1, w.2, v.0, v.1, v.2))
      (omega (arith, flat, w.0, w.1, w.2, v.0, v.1, v.2))
  where
    flat : p.x + p.z * 16 + p.y * 256 ≡ q.x + q.z * 16 + q.y * 256
    flat = sym (block_idx-below p w) ∙ e ∙ block_idx-below q v

biome_idx-injective :
    (p q : Position) → Within 4 p → Within 4 q → section_biome_idx p ≡ section_biome_idx q → p ≡ q
biome_idx-injective p q w v e =
    position_eq p q (omega (arith, flat, w.0, w.1, w.2, v.0, v.1, v.2))
      (omega (arith, flat, w.0, w.1, w.2, v.0, v.1, v.2))
      (omega (arith, flat, w.0, w.1, w.2, v.0, v.1, v.2))
  where
    flat : p.x + p.z * 4 + p.y * 16 ≡ q.x + q.z * 4 + q.y * 16
    flat = sym (biome_idx-below p w) ∙ e ∙ biome_idx-below q v

-- The two halves of a section that this file is about.
abbrev pub BlocksTogether : Section → Type 0
BlocksTogether s =
    Together block_bits 32768 block_bits-Counts section_3d_size s.block_palette s.blocks

abbrev pub BiomesTogether : Section → Type 0
BiomesTogether s =
    Together biome_bits 8 biome_bits-Counts biome_section_3d_size s.biome_palette s.biomes

get_block-Within :
    (s : Section) (p : Position)
    → Within 16 p
    → get_block s p ≡ load_id section_3d_size s.block_palette s.blocks (section_block_idx p)
unfolding get_block position_ge
get_block-Within s p (a, b, c) = rw (lt→leb 16 p.x a) refl

get_biome-Within :
    (s : Section) (p : Position)
    → Within 4 p
    → get_biome s p ≡ load_id biome_section_3d_size s.biome_palette s.biomes (section_biome_idx p)
unfolding get_biome position_ge
get_biome-Within s p (a, b, c) = rw (lt→leb 4 p.x a) refl

-- setBlock at a position inside a section whose block palette and storage belong together, where
-- the palette with the block has at most 2 ^ 15 entries: it throws nothing, getBlock gives the
-- block back at the position and what it gave before at the others, and palette and storage
-- belong together again.
pub set_block-get_block :
    (s : Section) (p : Position) (block : ℕ)
    → BlocksTogether s
    → Within 16 p
    → length (add s.block_palette block) ≤ 32768
    → ((set_block s p block).1 ≡ none)
      × BlocksTogether (set_block s p block).0
      × (get_block (set_block s p block).0 p ≡ ok block)
      × ((q : Position) → Within 16 q → p ≢ q → get_block (set_block s p block).0 q ≡ get_block s q)
unfolding set_block
set_block-get_block s p block t w small =
    let (quiet, again, here, there) =
      store_id-Holds block_bits 32768 block_bits-Counts section_3d_size s.block_palette s.blocks
        (section_block_idx p) block t (block_idx-lt p w) small in
    rw (Within-accepted 16 p (omega arith) w) (
      quiet,
      again,
      get_block-Within _ p w ∙ here,
      λ q v ne.
          get_block-Within _ q v
          ∙ there (section_block_idx q) (block_idx-lt q v) (λ e. ne (block_idx-injective p q w v e))
          ∙ sym (get_block-Within s q v),
    )

-- setBiome at a position inside a section whose biome palette and storage belong together, where
-- the palette with the biome has at most 8 entries: it throws nothing, getBiome gives the biome
-- back at the position and what it gave before at the others, and palette and storage belong
-- together again.
pub set_biome-get_biome :
    (s : Section) (p : Position) (biome : ℕ)
    → BiomesTogether s
    → Within 4 p
    → length (add s.biome_palette biome) ≤ 8
    → ((set_biome s p biome).1 ≡ none)
      × BiomesTogether (set_biome s p biome).0
      × (get_biome (set_biome s p biome).0 p ≡ ok biome)
      × ((q : Position) → Within 4 q → p ≢ q → get_biome (set_biome s p biome).0 q ≡ get_biome s q)
unfolding set_biome
set_biome-get_biome s p biome t w small =
    let (quiet, again, here, there) =
      store_id-Holds biome_bits 8 biome_bits-Counts biome_section_3d_size s.biome_palette s.biomes
        (section_biome_idx p) biome t (biome_idx-lt p w) small in
    rw (Within-accepted 4 p (omega arith) w) (
      quiet,
      again,
      get_biome-Within _ p w ∙ here,
      λ q v ne.
          get_biome-Within _ q v
          ∙ there (section_biome_idx q) (biome_idx-lt q v) (λ e. ne (biome_idx-injective p q w v e))
          ∙ sym (get_biome-Within s q v),
    )

same_idx :
    (y z : ℕ)
    → section_block_idx (record { x = 16; y = y; z = z })
      ≡ section_block_idx (record { x = 0; y = y; z = suc z })
unfolding section_block_idx
same_idx y z = ap (λ (t : ℕ). t % 2 ^ 64) (omega arith)

row_accepted :
    (x y z : ℕ)
    → y < 16
    → (position_ge (record { x = x; y = y; z = z }) 16
        || position_negative (record { x = x; y = y; z = z }))
      ≡ false
unfolding position_ge position_negative
row_accepted x y z h = rw (lt→leb 16 y h, lt→leb (2 ^ 63) y (omega arith)) (ground arith)

set_block-accepted :
    (s : Section) (p : Position) (block : ℕ)
    → (position_ge p 16 || position_negative p) ≡ false
    → set_block s p block
      ≡ with_blocks s
          (store_id block_bits section_3d_size s.block_palette s.blocks (section_block_idx p) block)
unfolding set_block
set_block-accepted s p block e = rw e refl

-- The check of setBlock takes a position with one coordinate out of range: for y in range, a
-- block set at x = 16 is set at x = 0 of the next row, z + 1.
pub set_block-next_row :
    (s : Section) (y z block : ℕ)
    → y < 16
    → set_block s (record { x = 16; y = y; z = z }) block
      ≡ set_block s (record { x = 0; y = y; z = suc z }) block
set_block-next_row s y z block h =
    set_block-accepted s (record { x = 16; y = y; z = z }) block (row_accepted 16 y z h)
    ∙ ap
        (λ (i : ℕ).
          with_blocks s (store_id block_bits section_3d_size s.block_palette s.blocks i block))
        (same_idx y z)
    ∙ sym (
        set_block-accepted s (record { x = 0; y = y; z = suc z }) block
          (row_accepted 0 y (suc z) h))
