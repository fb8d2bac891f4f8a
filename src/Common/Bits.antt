-- ===== src/Common/Bits.antt =====
-- The bitwise operations at variables: one binary digit at a time, then field by field. The native
-- operations compute at numerals only, and stand for a recursion on binary digits.
use Prim.Native.Nat.{
  ℕ, zero, suc, ◌+◌, ◌-◌, ◌*◌, ◌/◌, ◌%◌, ◌^◌, ◌≤◌, ◌<◌, min, max, bit_and, bit_or, digits, bitwise,
  bit_and-bitwise, bit_or-bitwise,
}
use mathlib.Core.Path.{◌≡◌, refl, ap, ap₂}
use native.Mathlib.Nat.{pow-suc, div-add-mod', zero-add, suc-add}
use native.Mathlib.Omega.{arith}

-- The recursion takes any number of rounds that is at least its first number.
module _ (rest : ℕ → ℕ) (digit : ℕ → ℕ → ℕ) where
  rounds_enough : (n m a b : ℕ) → a ≤ n → a ≤ m → digits rest digit n a b ≡ digits rest digit m a b
  rounds_enough zero zero a b p q = refl
  rounds_enough zero (suc m) zero b p q = refl
  rounds_enough zero (suc m) (suc a) b p q = absurd (omega arith)
  rounds_enough (suc n) zero zero b p q = refl
  rounds_enough (suc n) zero (suc a) b p q = absurd (omega arith)
  rounds_enough (suc n) (suc m) zero b p q = refl
  rounds_enough (suc n) (suc m) (suc a) b p q =
      rw (rounds_enough n m (suc a / 2) (b / 2) (omega arith) (omega arith))

  bitwise-first_digit :
      (a b : ℕ)
      → bitwise rest digit (suc a) b
        ≡ bitwise rest digit (suc a / 2) (b / 2) * 2 + digit (suc a % 2) (b % 2)
  bitwise-first_digit a b =
      omega (arith, rounds_enough a (suc a / 2) (suc a / 2) (b / 2) (omega arith) (omega arith))

bit_or-digit : (a b : ℕ) → bit_or a b ≡ bit_or (a / 2) (b / 2) * 2 + max (a % 2) (b % 2)
bit_or-digit zero b = simp bit_or-bitwise (omega arith)
bit_or-digit (suc a) b = simp bit_or-bitwise (bitwise-first_digit (λ y. y) max a b)

pub bit_and-digit : (a b : ℕ) → bit_and a b ≡ bit_and (a / 2) (b / 2) * 2 + min (a % 2) (b % 2)
bit_and-digit zero b = simp bit_and-bitwise (omega arith)
bit_and-digit (suc a) b = simp bit_and-bitwise (bitwise-first_digit (λ y. 0) min a b)

pub zero-bit_or : (b : ℕ) → bit_or 0 b ≡ b
zero-bit_or b = bit_or-bitwise 0 b

pub zero-bit_and : (b : ℕ) → bit_and 0 b ≡ 0
zero-bit_and b = bit_and-bitwise 0 b

bit_or-zero_below : (n a : ℕ) → a ≤ n → bit_or a 0 ≡ a
bit_or-zero_below n zero h = refl
bit_or-zero_below zero (suc a) h = absurd (omega arith)
bit_or-zero_below (suc n) (suc a) h =
    omega (arith, bit_or-digit (suc a) 0, bit_or-zero_below n (suc a / 2) (omega arith))

pub bit_or-zero : (a : ℕ) → bit_or a 0 ≡ a
bit_or-zero a = bit_or-zero_below a a (omega arith)

bit_and-zero_below : (n a : ℕ) → a ≤ n → bit_and a 0 ≡ 0
bit_and-zero_below n zero h = refl
bit_and-zero_below zero (suc a) h = absurd (omega arith)
bit_and-zero_below (suc n) (suc a) h =
    omega (arith, bit_and-digit (suc a) 0, bit_and-zero_below n (suc a / 2) (omega arith))

pub bit_and-zero : (a : ℕ) → bit_and a 0 ≡ 0
bit_and-zero a = bit_and-zero_below a a (omega arith)

pub pow_double : (n : ℕ) → 2 ^ suc n ≡ 2 ^ n * 2
pow_double n = pow-suc 2 n

pub pow_pos : (n : ℕ) → 0 < 2 ^ n
pow_pos zero = omega arith
pow_pos (suc n) = omega (arith, pow_double n, pow_pos n)

pub pow-add : (n m : ℕ) → 2 ^ (n + m) ≡ 2 ^ n * 2 ^ m
pow-add zero m = omega (arith, ap (λ (t : ℕ). 2 ^ t) (zero-add m))
pow-add (suc n) m = omega (
  arith,
  ap (λ (t : ℕ). 2 ^ t) (suc-add n m),
  pow_double (n + m),
  pow_double n,
  pow-add n m,
  ap (λ (t : ℕ). t * 2 ^ m) (pow_double n),
)

-- The halves of a number whose fields are `h` and `l`, the lower one of `n + 1` bits.
half_fields : (n h l : ℕ) → (h * 2 ^ suc n + l) / 2 ≡ h * 2 ^ n + l / 2
half_fields n h l = omega (arith, ap (λ (t : ℕ). h * t) (pow_double n))

parity_fields : (n h l : ℕ) → (h * 2 ^ suc n + l) % 2 ≡ l % 2
parity_fields n h l = omega (arith, ap (λ (t : ℕ). h * t) (pow_double n))

pub split_fields : (n a : ℕ) → a / 2 ^ n * 2 ^ n + a % 2 ^ n ≡ a
split_fields n a = div-add-mod' a (2 ^ n)

no_field : (h l : ℕ) → l < 1 → h * 1 + l ≡ h
no_field h l p = omega arith

below_one : (l : ℕ) → l < 1 → l ≡ 0
below_one l p = omega arith

-- The operations go field by field.
pub bit_and_fields :
    (n h h' l l' : ℕ)
    → l < 2 ^ n
    → l' < 2 ^ n
    → bit_and (h * 2 ^ n + l) (h' * 2 ^ n + l') ≡ bit_and h h' * 2 ^ n + bit_and l l'
bit_and_fields zero h h' l l' p q = omega (
  arith,
  ap₂ bit_and (no_field h l p) (no_field h' l' q),
  ap₂ bit_and (below_one l p) (below_one l' q),
  zero-bit_and 0,
)
bit_and_fields (suc n) h h' l l' p q = omega (
  arith,
  bit_and-digit (h * 2 ^ suc n + l) (h' * 2 ^ suc n + l'),
  bit_and-digit l l',
  parity_fields n h l,
  parity_fields n h' l',
  ap₂ bit_and (half_fields n h l) (half_fields n h' l'),
  bit_and_fields n h h' (l / 2) (l' / 2) (omega (arith, pow_double n))
      (omega (arith, pow_double n)),
  ap (λ (t : ℕ). bit_and h h' * t) (pow_double n),
)

pub bit_or_fields :
    (n h h' l l' : ℕ)
    → l < 2 ^ n
    → l' < 2 ^ n
    → bit_or (h * 2 ^ n + l) (h' * 2 ^ n + l') ≡ bit_or h h' * 2 ^ n + bit_or l l'
bit_or_fields zero h h' l l' p q = omega (
  arith,
  ap₂ bit_or (no_field h l p) (no_field h' l' q),
  ap₂ bit_or (below_one l p) (below_one l' q),
  zero-bit_or 0,
)
bit_or_fields (suc n) h h' l l' p q = omega (
  arith,
  bit_or-digit (h * 2 ^ suc n + l) (h' * 2 ^ suc n + l'),
  bit_or-digit l l',
  parity_fields n h l,
  parity_fields n h' l',
  ap₂ bit_or (half_fields n h l) (half_fields n h' l'),
  bit_or_fields n h h' (l / 2) (l' / 2) (omega (arith, pow_double n)) (omega (arith, pow_double n)),
  ap (λ (t : ℕ). bit_or h h' * t) (pow_double n),
)

pub low_field : (l p : ℕ) → 0 * p + l ≡ l
low_field l p = omega arith

high_field : (h : ℕ) → h + 0 ≡ h
high_field h = omega arith

pub half_mask : (n : ℕ) → (2 ^ suc n - 1) / 2 ≡ 2 ^ n - 1
half_mask n = omega (arith, pow_double n, pow_pos n)

-- Two words with no bit in common.
pub bit_or_disjoint : (n h l : ℕ) → l < 2 ^ n → bit_or l (h * 2 ^ n) ≡ h * 2 ^ n + l
bit_or_disjoint n h l p = omega (
  arith,
  bit_or_fields n 0 h l 0 p (pow_pos n),
  zero-bit_or h,
  bit_or-zero l,
  ap₂ bit_or (low_field l (2 ^ n)) (high_field (h * 2 ^ n)),
  ap (λ (t : ℕ). t * 2 ^ n) (zero-bit_or h),
)

-- The same with the higher field first.
pub disjoint-bit_or : (n h l : ℕ) → l < 2 ^ n → bit_or (h * 2 ^ n) l ≡ h * 2 ^ n + l
disjoint-bit_or n h l p = omega (
  arith,
  bit_or_fields n h 0 0 l (pow_pos n) p,
  zero-bit_or l,
  bit_or-zero h,
  ap₂ bit_or (high_field (h * 2 ^ n)) (low_field l (2 ^ n)),
  ap (λ (t : ℕ). t * 2 ^ n) (bit_or-zero h),
)
