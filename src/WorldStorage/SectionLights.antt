-- ===== src/WorldStorage/SectionLights.antt =====
-- cubic-server/world_storage/Section.cpp: setSkyLight and setBlockLight, and their getters.
use cubic_server.Common.{ℕ, ◌<◌, ◌≡◌, ◌≢◌, refl, sym, ◌∙◌, arith, none, lt→leb, ok}
use cubic_server.Protocol.Types.{Position}
use cubic_server.WorldStorage.Section.{Section, section_3d_size, position_ge, section_block_idx}
use cubic_server.WorldStorage.Blocks.{Within, block_idx-lt, block_idx-injective}
use cubic_server.WorldStorage.Lights.{
  light_set, with_light, set_sky_light, get_sky_light, get_sky_light_at, set_block_light,
  get_block_light, get_block_light_at,
}
use cubic_server.WorldStorage.LightLaws.{Counted, set_light-Lit}

-- Inside a section, the lights of either kind and their count.
abbrev pub SkyCounted : Section → Type 0
SkyCounted s = Counted section_3d_size (omega arith) s.sky_light s.sky_light_count

abbrev pub BlockCounted : Section → Type 0
BlockCounted s = Counted section_3d_size (omega arith) s.block_light s.block_light_count

get_sky_light-Within :
    (s : Section) (p : Position)
    → Within 16 p
    → get_sky_light s p ≡ get_sky_light_at s (section_block_idx p)
unfolding get_sky_light position_ge
get_sky_light-Within s p (a, b, c) = rw (lt→leb 16 p.x a) refl

get_block_light-Within :
    (s : Section) (p : Position)
    → Within 16 p
    → get_block_light s p ≡ get_block_light_at s (section_block_idx p)
unfolding get_block_light position_ge
get_block_light-Within s p (a, b, c) = rw (lt→leb 16 p.x a) refl

-- setSkyLight of a light below 16 at a position inside a section whose sky light count is that
-- of its lit positions: it throws nothing, getSkyLight gives the light back there and what it
-- gave before at the other positions, and the count is again that of the lit positions.
pub set_sky_light-get_sky_light :
    (s : Section) (p : Position) (light : ℕ)
    → SkyCounted s
    → Within 16 p
    → light < 16
    → ((set_sky_light s p light).1 ≡ none)
      × SkyCounted (set_sky_light s p light).0
      × (get_sky_light (set_sky_light s p light).0 p ≡ ok light)
      × ((q : Position)
          → Within 16 q
          → p ≢ q
          → get_sky_light (set_sky_light s p light).0 q ≡ get_sky_light s q)
unfolding set_sky_light
set_sky_light-get_sky_light s p light t w h =
    let (old, after, g, f, (counted, self, other)) =
      set_light-Lit section_3d_size (omega arith) s.sky_light s.sky_light_count
        (section_block_idx p) light t (block_idx-lt p w) h in
    rw (g, f, with_light, light_set)
      (
        refl,
        counted,
        get_sky_light-Within _ p w ∙ self,
        λ q v ne.
            get_sky_light-Within _ q v
            ∙ other (section_block_idx q) (block_idx-lt q v)
                (λ e. ne (block_idx-injective p q w v e))
            ∙ sym (get_sky_light-Within s q v),
      )

-- setBlockLight of a light below 16 at a position inside a section whose block light count is
-- that of its lit positions: it throws nothing, getBlockLight gives the light back there and
-- what it gave before at the other positions, and the count is again that of the lit positions.
pub set_block_light-get_block_light :
    (s : Section) (p : Position) (light : ℕ)
    → BlockCounted s
    → Within 16 p
    → light < 16
    → ((set_block_light s p light).1 ≡ none)
      × BlockCounted (set_block_light s p light).0
      × (get_block_light (set_block_light s p light).0 p ≡ ok light)
      × ((q : Position)
          → Within 16 q
          → p ≢ q
          → get_block_light (set_block_light s p light).0 q ≡ get_block_light s q)
unfolding set_block_light
set_block_light-get_block_light s p light t w h =
    let (old, after, g, f, (counted, self, other)) =
      set_light-Lit section_3d_size (omega arith) s.block_light s.block_light_count
        (section_block_idx p) light t (block_idx-lt p w) h in
    rw (get_block_light-Within s p w ∙ g, f, with_light, light_set)
      (
        refl,
        counted,
        get_block_light-Within _ p w ∙ self,
        λ q v ne.
            get_block_light-Within _ q v
            ∙ other (section_block_idx q) (block_idx-lt q v)
                (λ e. ne (block_idx-injective p q w v e))
            ∙ sym (get_block_light-Within s q v),
      )
