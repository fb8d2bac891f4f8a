-- ===== src/Protocol/BitSet.antt =====
-- What popBitSet makes of its bytes: `byte & (1 >> i)` is 0 for every i but 0.
use cubic_server.Common.{
  ℕ, zero, suc, ◌+◌, ◌-◌, ◌*◌, ◌/◌, ◌%◌, ◌^◌, ◌≤◌, ◌≡◌, ◌⊎◌, inl, inr, refl, ap, subst, Bool, true,
  List, [], ◌∷◌, ◌++◌, arith, length, length-append, get_elem?, some, dec_lt, Result, ok,
}
use cubic_server.Common.Bits.{bit_and-zero, pow_double, pow_pos}
use cubic_server.Protocol.Pop.{bits_of_byte, pop_bit_set_loop, pop_bit_set}
use Prim.Native.Nat.{min}
use native.Mathlib.Nat.{div-eq_of_lt, add-zero, zero-add}

-- Every set bit of a list that starts at index k stands at a multiple of 8.
abbrev Sparse : ℕ → List Bool → Type 0
Sparse k [] = Unit {0}
Sparse k (b ∷ bs) = (b ≡ true → k % 8 ≡ 0) × Sparse (k + 1) bs

Sparse-append :
    (k : ℕ) (xs ys : List Bool) → Sparse k xs → Sparse (k + length xs) ys → Sparse k (xs ++ ys)
Sparse-append k [] ys hx hy = rw (add-zero k) at hy
Sparse-append k (x ∷ xs) ys hx hy =
    (hx.0, Sparse-append (k + 1) xs ys hx.1 (rw (shift k (length xs)) hy))
  where
    shift : (a b : ℕ) → a + 1 + b ≡ a + suc b
    shift a b = omega arith

one_shifted : (i : ℕ) → 1 ≤ i → 1 / 2 ^ i ≡ 0
one_shifted zero h = absurd (omega arith)
one_shifted (suc i) h = div-eq_of_lt (omega (arith, pow_double i, pow_pos i))

-- Past the first bit of a byte nothing is set.
bits_of_byte-Sparse_tail : (n i k byte : ℕ) → 1 ≤ i → Sparse k (bits_of_byte n i byte)
unfolding bits_of_byte
bits_of_byte-Sparse_tail zero i k byte h = tt
bits_of_byte-Sparse_tail (suc n) i k byte h = (
  λ e. ground (arith, one_shifted i h, bit_and-zero byte),
  bits_of_byte-Sparse_tail n (i + 1) (k + 1) byte (omega arith),
)

bits_of_byte-Sparse : (n k byte : ℕ) → k % 8 ≡ 0 → Sparse k (bits_of_byte n 0 byte)
unfolding bits_of_byte
bits_of_byte-Sparse zero k byte h = tt
bits_of_byte-Sparse (suc n) k byte h =
    (λ e. h, bits_of_byte-Sparse_tail n (0 + 1) (k + 1) byte (omega arith))

length-bits_of_byte : (n i byte : ℕ) → length (bits_of_byte n i byte) ≡ n
unfolding bits_of_byte
length-bits_of_byte zero i byte = refl
length-bits_of_byte (suc n) i byte = ap suc (length-bits_of_byte n (i + 1) byte)

byte-Sparse :
    (left k byte : ℕ) → (k % 8 ≡ 0) ⊎ (left ≡ 0) → Sparse k (bits_of_byte (min 8 left) 0 byte)
byte-Sparse left k byte (inl h) = bits_of_byte-Sparse (min 8 left) k byte h
byte-Sparse left k byte (inr e) = rw e (unfold bits_of_byte in tt)

ok-fst {ℓ} :
    {A : Type ℓ} {a b : A} {r s : List ℕ}
    → ◌≡◌ {A = Result (A × List ℕ)} (ok (a, r)) (ok (b, s))
    → a ≡ b
ok-fst e = cc

front_grown :
    (left : ℕ) (front : List Bool) (b : ℕ)
    → length (front ++ bits_of_byte (min 8 left) 0 b) ≡ length front + min 8 left
front_grown left front b = omega (
  arith,
  length-append front (bits_of_byte (min 8 left) 0 b),
  length-bits_of_byte (min 8 left) 0 b,
)

front_aligned :
    (left : ℕ) (front : List Bool) (b : ℕ)
    → (length front % 8 ≡ 0) ⊎ (left ≡ 0)
    → (length (front ++ bits_of_byte (min 8 left) 0 b) % 8 ≡ 0) ⊎ (left - 8 ≡ 0)
front_aligned left front b h = elim (dec_lt left 8) [
  | yes l ↦ inr (omega arith)
  | no l ↦ inl (omega (arith, front_grown left front b))
]

pop_bit_set_loop-Sparse :
    (n left : ℕ) (front : List Bool) (bs : List ℕ) (bits : List Bool) (rest : List ℕ)
    → (length front % 8 ≡ 0) ⊎ (left ≡ 0)
    → Sparse 0 front
    → pop_bit_set_loop n left front bs ≡ ok (bits, rest)
    → Sparse 0 bits × (length front + min left (8 * n) ≡ length bits)
unfolding pop_bit_set_loop
pop_bit_set_loop-Sparse zero left front bs bits rest h s e =
    (subst (Sparse 0) (ok-fst e) s, omega (arith, ap length (ok-fst e)))
pop_bit_set_loop-Sparse (suc n) left front [] bits rest h s e = cc
pop_bit_set_loop-Sparse (suc n) left front (b ∷ bs) bits rest h s e =
    let sparse =
      Sparse-append 0 front (bits_of_byte (min 8 left) 0 b) s
        (rw zero-add (byte-Sparse left (length front) b h)) in
    let (sparse', size_eq) =
      pop_bit_set_loop-Sparse n (left - 8) (front ++ bits_of_byte (min 8 left) 0 b) bs bits rest
        (front_aligned left front b h) sparse e in
    (sparse', omega (arith, size_eq, front_grown left front b))

Sparse-get_elem? :
    (k i : ℕ) (bits : List Bool) → Sparse k bits → get_elem? bits i ≡ some true → (k + i) % 8 ≡ 0
Sparse-get_elem? k i [] s e = cc
Sparse-get_elem? k zero (b ∷ bs) s e = omega (arith, s.0 (cc))
Sparse-get_elem? k (suc i) (b ∷ bs) s e = omega (arith, Sparse-get_elem? (k + 1) i bs s.1 e)

-- A bitset that popBitSet read has the size asked for, and only bits at multiples of 8 can be
-- set in it, whatever bytes came in.
pub pop_bit_set_drops_bits :
    (size i : ℕ) (bs : List ℕ) (bits : List Bool) (rest : List ℕ)
    → pop_bit_set size bs ≡ ok (bits, rest)
    → (length bits ≡ size) × (get_elem? bits i ≡ some true → i % 8 ≡ 0)
unfolding pop_bit_set
pop_bit_set_drops_bits size i bs bits rest e =
    let (sparse, size_eq) =
      pop_bit_set_loop-Sparse ((size + 7) / 8) size [] bs bits rest (inl (omega arith)) tt e in
    (omega arith, λ h. omega (arith, Sparse-get_elem? 0 i bits sparse h))
