-- ===== src/Protocol/RoundTrip/Fixed.antt =====
-- Fixed-width numbers, highest byte first, and the functions built from them.
use cubic_server.Common.{
  ℕ, zero, suc, ◌+◌, ◌*◌, ◌/◌, ◌%◌, ◌^◌, ◌≤◌, ◌<◌, ◌≡◌, refl, ap, List, ◌++◌, arith, length, ok,
}
use cubic_server.Common.Words.{shl, IsBytes}
use cubic_server.Common.Digits.{pow256, pow256_pos, mod_digit}
use native.Mathlib.Nat.{mod-eq_of_lt}
use cubic_server.Protocol.Add.{be_bytes}
use cubic_server.Protocol.Pop.{pop_be}

pub length-be_bytes : (n v : ℕ) → length (be_bytes n v) ≡ n
unfolding be_bytes
length-be_bytes zero v = refl
length-be_bytes (suc n) v = ap suc (length-be_bytes n v)

be_bytes-IsBytes : (n v : ℕ) → IsBytes (be_bytes n v)
unfolding be_bytes
be_bytes-IsBytes zero v = tt
be_bytes-IsBytes (suc n) v = (omega arith, be_bytes-IsBytes n v)

shifted_fits : (w a b : ℕ) → a * 256 + b < 2 ^ w → a * 256 < 2 ^ w
shifted_fits w a b fits = omega arith

-- The rounds of the loop, put together.
pub digits_join :
    (n a v : ℕ)
    → (a * 256 + v / 256 ^ n % 256) * 256 ^ n + v % 256 ^ n ≡ a * 256 ^ suc n + v % 256 ^ suc n
digits_join n a v = omega (
  arith,
  ap (λ (t : ℕ). a * t) (pow256 n),
  ap (λ (t : ℕ). v % t) (pow256 n),
  mod_digit v (256 ^ n) (pow256_pos n),
)

pub le-mul_pos : (x p : ℕ) → 0 < p → x ≤ x * p
le-mul_pos x p h = grind arith

-- One round: the word shifted by a byte still fits.
pop_be_round : (w a b : ℕ) → b < 256 → (a * 256 + b) < 2 ^ w → (shl w a 8 + b) % 2 ^ w ≡ a * 256 + b
pop_be_round w a b hb fits = omega (
  arith,
  mod-eq_of_lt (shifted_fits w a b fits),
  ap (λ (t : ℕ). (t + b) % 2 ^ w) (mod-eq_of_lt (shifted_fits w a b fits)),
  mod-eq_of_lt fits,
)

pub pop_be-be_bytes :
    (w n a v : ℕ) (rest : List ℕ)
    → a * 256 ^ n + v % 256 ^ n < 2 ^ w
    → pop_be w n a (be_bytes n v ++ rest) ≡ ok (a * 256 ^ n + v % 256 ^ n, rest)
unfolding be_bytes pop_be
pop_be-be_bytes w zero a v rest fits = ground arith
pop_be-be_bytes w (suc n) a v rest fits =
    rw (pop_be_round w a (v / 256 ^ n % 256) (omega arith) (head_fits), ← digits_join n a v)
      (pop_be-be_bytes w n (a * 256 + v / 256 ^ n % 256) v rest (rw digits_join fits))
  where
    head_fits : a * 256 + v / 256 ^ n % 256 < 2 ^ w
    head_fits = omega (
      arith,
      digits_join n a v,
      le-mul_pos (a * 256 + v / 256 ^ n % 256) (256 ^ n) (pow256_pos n),
    )
