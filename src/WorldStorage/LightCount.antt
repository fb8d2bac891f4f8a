-- ===== src/WorldStorage/LightCount.antt =====
-- cubic-server/world_storage/Section.cpp: recalculateSkyLightCount, recalculateBlockLightCount and
-- recalculateSkyLight.
use cubic_server.Common.{
  ℕ, zero, suc, ◌+◌, ◌*◌, ◌/◌, ◌%◌, ◌^◌, ◌≤◌, ◌<◌, ◌≡◌, refl, sym, ap, ap₂, ◌∙◌, arith, some, List,
  [], ◌∷◌, length, get_elem?, get_or, get_or-of-get_elem?, if◌then◌else◌, leb, lt→leb, le→leb, ok,
}
use cubic_server.Common.Bits.{bit_and_fields}
use cubic_server.Common.Masks.{bit_and_mask}
use cubic_server.Common.Fields.{field}
use cubic_server.WorldStorage.Storage.{DynamicStorage, get_value}
use cubic_server.WorldStorage.Layout.{get-All}
use cubic_server.WorldStorage.Entries.{HasData, get_value-field}
use cubic_server.WorldStorage.Lights.{lit_nibbles, count_lit}
use cubic_server.WorldStorage.LightLaws.{is_lit, lit_below, lit_count}
use Prim.Native.Nat.{bit_and}
use native.Mathlib.Nat.{mod-eq_of_lt, div-add-mod', mul-le-mul_right}

one_le : (x : ℕ) → 1 ≤ suc x
one_le x = omega arith

lit_flag : (x y : ℕ) → 0 < y → (if leb 1 (x * y) then 1 else 0) ≡ is_lit (ok x)
lit_flag zero y h = rw (lt→leb 1 (0 * y) (omega arith)) refl
lit_flag (suc x) y h = rw (le→leb 1 (suc x * y) (omega (arith, mul-le-mul_right y (one_le x)))) refl

high_nibble : (b : ℕ) → b < 256 → bit_and b 0xF0 ≡ b / 16 * 16
high_nibble b h = omega (
  arith,
  bit_and_fields 4 (b / 16) 15 (b % 16) 0 (omega arith) (omega arith),
  bit_and_mask 4 (b / 16),
  bit_and_mask 0 (b % 16),
  ap (λ (t : ℕ). bit_and t 0xF0) (div-add-mod' b 16),
)

lit_nibbles-lit : (b : ℕ) → b < 256 → lit_nibbles b ≡ is_lit (ok (b / 16)) + is_lit (ok (b % 16))
lit_nibbles-lit b h =
    ap₂ (λ (x y : ℕ). x + y)
      (ap (λ (t : ℕ). if leb 1 t then 1 else 0) (high_nibble b h)
        ∙ lit_flag (b / 16) 16 (omega arith))
      (ap (λ (t : ℕ). if leb 1 t then 1 else 0) (bit_and_mask 4 b ∙ omega arith)
        ∙ lit_flag (b % 16) 1 (omega arith))

-- The lit nibbles of the first `k` bytes.
abbrev nibbles_below : List ℕ → ℕ → ℕ
nibbles_below bytes zero = 0
nibbles_below bytes (suc k) = nibbles_below bytes k + lit_nibbles (get_or bytes k 0)

nibbles_below-front :
    (b : ℕ) (bytes : List ℕ) (k : ℕ)
    → nibbles_below (b ∷ bytes) (suc k) ≡ lit_nibbles b + nibbles_below bytes k
nibbles_below-front b bytes zero = omega arith
nibbles_below-front b bytes (suc k) = omega (arith, nibbles_below-front b bytes k)

lit_nibbles-le : (b : ℕ) → lit_nibbles b ≤ 2
lit_nibbles-le b = ground arith

-- Without wrap-around, the loop adds up the lit nibbles.
count_lit-nibbles :
    (bytes : List ℕ) (n : ℕ)
    → n + 2 * length bytes < 2 ^ 64
    → count_lit bytes n ≡ n + nibbles_below bytes (length bytes)
count_lit-nibbles [] n h = omega arith
count_lit-nibbles (b ∷ bytes) n h =
    ap (count_lit bytes) (mod-eq_of_lt (omega (arith, lit_nibbles-le b)))
    ∙ count_lit-nibbles bytes (n + lit_nibbles b) (omega (arith, lit_nibbles-le b))
    ∙ omega (arith, nibbles_below-front b bytes (length bytes))

two_more : (k : ℕ) → 2 * suc k ≡ suc (suc (2 * k))
two_more k = omega arith

some-injective : {a b : ℕ} → some a ≡ some b → a ≡ b
some-injective e = cc

-- Lights of four bits over their bytes: the light at an even index is the low nibble of its byte,
-- the light behind it the high one.
module _ (n : ℕ) (bytes : List ℕ) where
  abbrev pub lights : DynamicStorage
  lights = record { store = bytes; value_size = 4 }

  low_light :
      (k b : ℕ)
      → HasData 8 n lights
      → 2 * k < n
      → get_elem? bytes k ≡ some b
      → get_value 8 n lights (2 * k) ≡ ok (b % 16)
  low_light k b d h e =
      get_value-field 8 n lights (2 * k) b d h (ap (get_elem? bytes) (omega arith) ∙ e)
      ∙ ap ok (ap (λ (t : ℕ). field 4 t b) (offset k) ∙ omega arith)
    where
      offset : (k : ℕ) → 2 * k % 2 * 4 ≡ 0
      offset k = omega arith

  high_light :
      (k b : ℕ)
      → HasData 8 n lights
      → suc (2 * k) < n
      → b < 256
      → get_elem? bytes k ≡ some b
      → get_value 8 n lights (suc (2 * k)) ≡ ok (b / 16)
  high_light k b d h p e =
      get_value-field 8 n lights (suc (2 * k)) b d h (ap (get_elem? bytes) (omega arith) ∙ e)
      ∙ ap ok (ap (λ (t : ℕ). field 4 t b) (offset k) ∙ omega arith)
    where
      offset : (k : ℕ) → suc (2 * k) % 2 * 4 ≡ 4
      offset k = omega arith

  byte_at :
      (k : ℕ)
      → HasData 8 n lights
      → k < length bytes
      → (b : ℕ) × (get_elem? bytes k ≡ some b) × (b < 256)
  unfolding HasData
  byte_at k d h = get-All (λ x. x < 256) bytes k h d.4

  get_or_of : (k b : ℕ) → k < length bytes → get_elem? bytes k ≡ some b → get_or bytes k 0 ≡ b
  get_or_of k b h e = some-injective (sym (get_or-of-get_elem? bytes k 0 h) ∙ e)

  lit_below-nibbles :
      (k : ℕ)
      → HasData 8 n lights
      → 2 * k ≤ n
      → k ≤ length bytes
      → lit_below (get_value 8 n lights) (2 * k) ≡ nibbles_below bytes k
  lit_below-nibbles zero d h p = refl
  lit_below-nibbles (suc k) d h p =
      let (b, e, q) = byte_at k d (omega arith) in
      ap (lit_below (get_value 8 n lights)) (two_more k)
      ∙ omega (
        arith,
        lit_below-nibbles k d (omega arith) (omega arith),
        ap is_lit (low_light k b d (omega arith) e),
        ap is_lit (high_light k b d (omega arith) q e),
        lit_nibbles-lit b q,
        ap lit_nibbles (get_or_of k b (omega arith) e),
      )

  -- Two lights in every byte.
  pub count_lit-lit_count :
      HasData 8 n lights → n ≡ 2 * length bytes → n ≤ 4096 → count_lit bytes 0 ≡ lit_count n lights
  unfolding lit_count
  count_lit-lit_count d e h =
      count_lit-nibbles bytes 0 (omega arith)
      ∙ omega (
        arith,
        lit_below-nibbles (length bytes) d (omega arith) (omega arith),
        ap (lit_below (get_value 8 n lights)) e,
      )
