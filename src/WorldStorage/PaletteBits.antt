-- ===== src/WorldStorage/PaletteBits.antt =====
-- cubic-server/world_storage/Palette.hpp: `bitsNeeded` and the two `getBits`.
use cubic_server.Common.{
  ℕ, zero, suc, ◌+◌, ◌*◌, ◌/◌, ◌^◌, ◌≤◌, ◌<◌, ◌≡◌, ◌⊎◌, refl, ap, ◌∙◌, arith, inl, inr, lt→leb,
  le→leb,
}
use cubic_server.Common.Bits.{pow_double}
use cubic_server.WorldStorage.Palette.{bits_needed_in, bits_needed, block_bits, biome_bits}
use native.Mathlib.Nat.{pow-le-pow_right}

le_or_gt : (a b : ℕ) → (a ≤ b) ⊎ (b < a)
le_or_gt a b = ground arith

one_more : (r : ℕ) → 2 ^ (1 + r) ≡ 2 ^ r * 2
one_more r = ap (λ (t : ℕ). 2 ^ t) (omega arith) ∙ pow_double r

bits_needed_in-fits : (rounds n : ℕ) → n ≤ rounds → n ≤ 2 ^ bits_needed_in rounds n
bits_needed_in-fits zero n h = omega arith
bits_needed_in-fits (suc rounds) n h = elim (le_or_gt n 1) [
  | inl p ↦ rw (le→leb n 1 p) p
  | inr p ↦ rw (lt→leb n 1 p) (
      omega (
        arith,
        bits_needed_in-fits rounds (suc n / 2) (omega arith),
        one_more (bits_needed_in rounds (suc n / 2)),
      ))
]

bits_needed_in-least : (rounds n k : ℕ) → n ≤ rounds → n ≤ 2 ^ k → bits_needed_in rounds n ≤ k
bits_needed_in-least zero n k h p = omega arith
bits_needed_in-least (suc rounds) n zero h p = rw (le→leb n 1 p) (omega arith)
bits_needed_in-least (suc rounds) n (suc k) h p = elim (le_or_gt n 1) [
  | inl q ↦ rw (le→leb n 1 q) (omega arith)
  | inr q ↦ rw (lt→leb n 1 q) (
      omega (
        arith,
        bits_needed_in-least rounds (suc n / 2) k (omega arith) (omega (arith, pow_double k)),
      ))
]

-- bitsNeeded of n is the least number of bits that count n values: n is at most 2 to that power,
-- and any power of 2 that is at least n has at least that exponent.
pub bits_needed-least :
    (n : ℕ) → (n ≤ 2 ^ bits_needed n) × ((k : ℕ) → n ≤ 2 ^ k → bits_needed n ≤ k)
unfolding bits_needed
bits_needed-least n =
    (bits_needed_in-fits n n (omega arith), λ k h. bits_needed_in-least n n k (omega arith) h)

bits_needed_mono : (n m : ℕ) → n ≤ m → bits_needed n ≤ bits_needed m
bits_needed_mono n m h =
    (bits_needed-least n).1 (bits_needed m) (omega (arith, (bits_needed-least m).0))

bits_needed-pos : (n : ℕ) → 2 ≤ n → 1 ≤ bits_needed n
bits_needed-pos n h = elim (le_or_gt 1 (bits_needed n)) [
  | inl p ↦ p
  | inr p ↦ absurd (omega (arith, (bits_needed-least n).0, ap (λ (t : ℕ). 2 ^ t) (zero_bits p)))
]
  where
    zero_bits : bits_needed n < 1 → bits_needed n ≡ 0
    zero_bits p = omega arith

pow_mono : (a b : ℕ) → a ≤ b → 2 ^ a ≤ 2 ^ b
pow_mono a b h = pow-le-pow_right {n = 2} (omega arith) h

-- What a section relies on: two or more entries get a size of up to 15 bits that counts them, up
-- to `limit` entries, and more entries never get fewer bits.
pub record Counts (bits : ℕ → ℕ) (limit : ℕ) : Type 0 where
  pub none_below : bits 1 ≡ 0
  pub some_from : (n : ℕ) → 2 ≤ n → 1 ≤ bits n
  pub at_most : (n : ℕ) → bits n ≤ 15
  pub enough : (n : ℕ) → 2 ≤ n → n ≤ limit → n ≤ 2 ^ bits n
  pub mono : (n m : ℕ) → n ≤ m → bits n ≤ bits m

large_enough : (b n : ℕ) → b ≤ 4 → n ≤ 2 ^ b → n ≤ 16
large_enough b n h p = omega (arith, pow_mono b 4 h)

block_bits-enough : (n : ℕ) → 2 ≤ n → n ≤ 32768 → n ≤ 2 ^ block_bits n
unfolding block_bits
block_bits-enough n h p = rw (lt→leb n 1 h) (elim (le_or_gt (bits_needed n) 4) [
  | inl q ↦
      rw (le→leb (bits_needed n) 4 q) (large_enough (bits_needed n) n q (bits_needed-least n).0)
  | inr q ↦ elim (le_or_gt (bits_needed n) 8) [
    | inl r ↦ rw (lt→leb (bits_needed n) 4 q, le→leb (bits_needed n) 8 r) ((bits_needed-least n).0)
    | inr r ↦ rw (lt→leb (bits_needed n) 4 q, lt→leb (bits_needed n) 8 r) p
  ]
])

-- Up to 2 ^ 15 entries, every number of a block fits in the bits that `getBits` gives.
pub block_bits-Counts : Counts block_bits 32768
unfolding block_bits
block_bits-Counts = record {
  none_below = refl;
  some_from = λ n h. ground (arith, bits_needed-pos n h);
  at_most = λ n. ground arith;
  enough = block_bits-enough;
  mono = λ n m h. ground (arith, bits_needed_mono n m h);
}

biome_bits-enough : (n : ℕ) → 2 ≤ n → n ≤ 8 → n ≤ 2 ^ biome_bits n
unfolding biome_bits
biome_bits-enough n h p = rw (lt→leb n 1 h) (elim (le_or_gt (bits_needed n) 3) [
  | inl q ↦ rw (le→leb (bits_needed n) 3 q) ((bits_needed-least n).0)
  | inr q ↦ rw (lt→leb (bits_needed n) 3 q) p
])

-- Up to 8 entries for biomes.
pub biome_bits-Counts : Counts biome_bits 8
unfolding biome_bits
biome_bits-Counts = record {
  none_below = refl;
  some_from = λ n h. ground (arith, bits_needed-pos n h);
  at_most = λ n. ground arith;
  enough = biome_bits-enough;
  mono = λ n m h. ground (arith, bits_needed_mono n m h);
}
