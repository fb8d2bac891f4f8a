-- ===== src/WorldStorage.antt =====
-- cubic-server/world_storage: packed arrays of values, palettes, and the sections made of them.
pub mod Storage
pub mod Layout
pub mod Entries
pub mod Resize
pub mod Palette
pub mod PaletteLaws
pub mod PaletteBits
pub mod Section
pub mod Store
pub mod Blocks
pub mod Lights
pub mod LightLaws
pub mod SectionLights
pub mod LightCount
pub mod Recalculate
pub mod BiomeLimit
mod Tests
