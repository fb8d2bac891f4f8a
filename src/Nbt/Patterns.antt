-- ===== src/Nbt/Patterns.antt =====
-- cubic-server/nbt.cpp: the bytes of a float or a double are read back as its bit pattern.
use cubic_server.Common.{
  ℕ, zero, suc, ◌+◌, ◌*◌, ◌/◌, ◌%◌, ◌^◌, ◌<◌, ◌≡◌, ap, ap₂, sym, ◌∙◌, List, ◌++◌, arith,
}
use cubic_server.Common.Words.{shl}
use cubic_server.Common.Bits.{disjoint-bit_or, bit_or_fields, zero-bit_or, pow-add, pow_pos}
use cubic_server.Common.Digits.{pow256}
use cubic_server.Protocol.Add.{be_bytes}
use cubic_server.Protocol.RoundTrip.Fixed.{digits_join}
use cubic_server.Nbt.Parser.{parsed, next, read_or}
use Prim.Native.Nat.{bit_or}
use native.Mathlib.Nat.{mod-eq_of_lt, zero-mul, suc-mul}

pow_bytes : (n : ℕ) → 2 ^ (n * 8) ≡ 256 ^ n
pow_bytes zero = omega (arith, ap (λ (t : ℕ). 2 ^ t) (zero-mul 8))
pow_bytes (suc n) =
    omega (arith, ap (λ (t : ℕ). 2 ^ t) (suc-mul n 8), pow-add (n * 8) 8, pow256 n, pow_bytes n)

no_low : (h : ℕ) → h + 0 ≡ h
no_low h = omega arith

high_field : (a n : ℕ) → a * 256 ^ suc n ≡ a * 256 * 256 ^ n
high_field a n = omega (arith, ap (λ (t : ℕ). a * t) (pow256 n))

or_round :
    (w n a b : ℕ)
    → b < 256
    → (a * 256 + b) * 256 ^ n < 2 ^ w
    → bit_or (a * 256 * 256 ^ n) (shl w b (n * 8)) ≡ (a * 256 + b) * 256 ^ n
or_round w n a b hb fits =
    rw (pow_bytes n, mod-eq_of_lt {n = b * 256 ^ n} {m = 2 ^ w} (omega arith)) fields
  where
    fields : bit_or (a * 256 * 256 ^ n) (b * 256 ^ n) ≡ (a * 256 + b) * 256 ^ n
    fields = rw (← pow_bytes n) (
        omega (
          arith,
          bit_or_fields (n * 8) (a * 256) b 0 0 (pow_pos (n * 8)) (pow_pos (n * 8)),
          ap₂ bit_or (no_low (a * 256 * 2 ^ (n * 8))) (no_low (b * 2 ^ (n * 8))),
          zero-bit_or 0,
          ap (λ (t : ℕ). t * 2 ^ (n * 8)) (disjoint-bit_or 8 a b hb),
        ))

read_or-be_bytes :
    (w n a v : ℕ) (rest : List ℕ)
    → a * 256 ^ n + v % 256 ^ n < 2 ^ w
    → read_or w n (a * 256 ^ n) (be_bytes n v ++ rest) ≡ parsed (a * 256 ^ n + v % 256 ^ n) rest
unfolding be_bytes read_or next
read_or-be_bytes w zero a v rest fits = ground arith
read_or-be_bytes w (suc n) a v rest fits =
    rw (high_field a n, or_round w n a (v / 256 ^ n % 256) (omega arith) head_small)
      (read_or-be_bytes w n (a * 256 + v / 256 ^ n % 256) v rest (rw digits_join fits)
        ∙ ap (λ (t : ℕ). parsed t rest)
            (digits_join n a v ∙ ap (λ (t : ℕ). t + v % 256 ^ suc n) (high_field a n)))
  where
    head_small : (a * 256 + v / 256 ^ n % 256) * 256 ^ n < 2 ^ w
    head_small = omega (arith, digits_join n a v)

pub read_pattern :
    (w n v : ℕ) (rest : List ℕ)
    → v < 2 ^ w
    → v < 256 ^ n
    → read_or w n 0 (be_bytes n v ++ rest) ≡ parsed v rest
read_pattern w n v rest hw hn =
    ap (λ (t : ℕ). read_or w n t (be_bytes n v ++ rest)) (sym (zero-mul (256 ^ n)))
    ∙ read_or-be_bytes w n 0 v rest (rw (mod-eq_of_lt hn) (omega arith))
    ∙ ap (λ (t : ℕ). parsed t rest) (omega (arith, mod-eq_of_lt hn))
