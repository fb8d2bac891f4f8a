-- ===== src/Common/Masks.antt =====
-- Masks, and words with a field cleared or set: `x & mask`, `w & ~(mask << o)`.
use Prim.Native.Nat.{ℕ, zero, suc, ◌+◌, ◌-◌, ◌*◌, ◌/◌, ◌%◌, ◌^◌, ◌<◌, bit_and, bit_or}
use mathlib.Core.Path.{◌≡◌, ap, ap₂, ◌∙◌}
use native.Mathlib.Nat.{mod-lt}
use native.Mathlib.Omega.{arith}
use cubic_server.Common.Bits.{
  bit_and-digit, bit_and-zero, pow_double, pow_pos, pow-add, split_fields, bit_and_fields,
  low_field, half_mask, bit_or_disjoint,
}

-- A mask of n ones.
pub mask_ones : (n l : ℕ) → l < 2 ^ n → bit_and l (2 ^ n - 1) ≡ l
mask_ones zero l p = omega (arith, bit_and-zero l)
mask_ones (suc n) l p = omega (
  arith,
  bit_and-digit l (2 ^ suc n - 1),
  mask_ones n (l / 2) (omega (arith, pow_double n)),
  ap (bit_and (l / 2)) (half_mask n),
  pow_double n,
  pow_pos n,
)

pub bit_and_mask : (n a : ℕ) → bit_and a (2 ^ n - 1) ≡ a % 2 ^ n
bit_and_mask n a = omega (
  arith,
  bit_and_fields n (a / 2 ^ n) 0 (a % 2 ^ n) (2 ^ n - 1) (mod-lt a (pow_pos n))
      (omega (arith, pow_pos n)),
  mask_ones n (a % 2 ^ n) (mod-lt a (pow_pos n)),
  ap (λ (t : ℕ). t * 2 ^ n) (bit_and-zero (a / 2 ^ n)),
  ap₂ bit_and (split_fields n a) (low_field (2 ^ n - 1) (2 ^ n)),
)

-- The complement of a field of k ones above o zeros, in a word of r + k + o bits.
complement_fields :
    (r k o a b c : ℕ)
    → r ≡ suc a
    → k ≡ suc b
    → o ≡ suc c
    → (a * k + 0) * o + c ≡ r * k * o - 1 - b * o
complement_fields r k o a b c p q t = rw (p, q, t) (omega arith)

pow_pred : (n : ℕ) → 2 ^ n ≡ suc (2 ^ n - 1)
pow_pred n = omega (arith, pow_pos n)

below_word : (n : ℕ) → 2 ^ n - 1 < 2 ^ n
below_word n = omega (arith, pow_pos n)

pub word_size : (r k o : ℕ) → 2 ^ (r + k + o) ≡ 2 ^ r * 2 ^ k * 2 ^ o
word_size r k o = pow-add (r + k) o ∙ ap (λ (t : ℕ). t * 2 ^ o) (pow-add r k)

-- `w & ~(mask << o)` clears the field of k bits at bit o and keeps the rest of the word.
pub clear_field :
    (r k o h f l : ℕ)
    → h < 2 ^ r
    → f < 2 ^ k
    → l < 2 ^ o
    → bit_and ((h * 2 ^ k + f) * 2 ^ o + l) (2 ^ (r + k + o) - 1 - (2 ^ k - 1) * 2 ^ o)
      ≡ h * 2 ^ k * 2 ^ o + l
clear_field r k o h f l p q t =
    rw (word_size r k o, ← complement)
      (bit_and_fields o (h * 2 ^ k + f) ((2 ^ r - 1) * 2 ^ k + 0) l (2 ^ o - 1) t (below_word o)
        ∙ rw (upper, mask_ones o l t))
  where
    complement :
        ((2 ^ r - 1) * 2 ^ k + 0) * 2 ^ o + (2 ^ o - 1)
        ≡ 2 ^ r * 2 ^ k * 2 ^ o - 1 - (2 ^ k - 1) * 2 ^ o
    complement = complement_fields _ _ _ _ _ _ (pow_pred r) (pow_pred k) (pow_pred o)

    upper : bit_and (h * 2 ^ k + f) ((2 ^ r - 1) * 2 ^ k + 0) ≡ h * 2 ^ k
    upper = omega (
      arith,
      bit_and_fields k h (2 ^ r - 1) f 0 q (pow_pos k),
      bit_and-zero f,
      ap (λ (t : ℕ). t * 2 ^ k) (mask_ones r h p),
    )

-- The top bit of a byte.
pub bit_and_top : (b : ℕ) → b < 256 → bit_and b 0x80 ≡ b / 128 * 128
bit_and_top b h = omega (
  arith,
  bit_and_fields 7 (b / 128) 1 (b % 128) 0 (omega arith) (omega arith),
  bit_and_mask 1 (b / 128),
  bit_and-zero (b % 128),
  ap (λ (t : ℕ). bit_and t 0x80) (split_fields 7 b),
)

pub bit_or_top : (g : ℕ) → g < 128 → bit_or g 0x80 ≡ g + 128
bit_or_top g h = omega (arith, bit_or_disjoint 7 1 g h)
