-- ===== src/Common/Digits.antt =====
-- Digits of a number in base 256, and remainders by a power of it.
use Prim.Native.Nat.{ℕ, zero, suc, ◌+◌, ◌*◌, ◌/◌, ◌%◌, ◌^◌, ◌<◌}
use mathlib.Core.Path.{◌≡◌, sym, ap, ◌∙◌}
use native.Mathlib.Nat.{pow-suc, div-add-mod', mod-lt, mod-eq_of_lt, mul-add-mod_self_right}
use native.Mathlib.Omega.{arith}

pub pow256 : (n : ℕ) → 256 ^ suc n ≡ 256 ^ n * 256
pow256 n = pow-suc 256 n

pub pow256_pos : (n : ℕ) → 0 < 256 ^ n
pow256_pos zero = omega arith
pow256_pos (suc n) = omega (arith, pow256 n, pow256_pos n)

-- A remainder is determined by its bound.
pub mod_unique : (q m r : ℕ) → r < m → (q * m + r) % m ≡ r
mod_unique q m r h = mul-add-mod_self_right q m r ∙ mod-eq_of_lt h

pub digit_bound : (d l p b : ℕ) → d < b → l < p → d * p + l < p * b
digit_bound d l p b h k = grind arith

digit_split : (v p : ℕ) → v / p / 256 * (p * 256) + (v / p % 256 * p + v % p) ≡ v
digit_split v p = omega (arith, div-add-mod' v p, ap (λ (t : ℕ). t * p) (div-add-mod' (v / p) 256))

-- The digit above `p`, and what stands below it.
pub mod_digit : (v p : ℕ) → 0 < p → v % (p * 256) ≡ v / p % 256 * p + v % p
mod_digit v p h =
    ap (λ (t : ℕ). t % (p * 256)) (sym (digit_split v p))
    ∙ mod_unique (v / p / 256) (p * 256) (v / p % 256 * p + v % p)
        (digit_bound (v / p % 256) (v % p) p 256 (omega arith) (mod-lt v h))
