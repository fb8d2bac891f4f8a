-- ===== src/Protocol/RoundTrip/Positions.antt =====
-- cubic-server/protocol/serialization: a position, packed in a word of 64 bits.
use cubic_server.Common.{
  ℕ, ◌+◌, ◌-◌, ◌*◌, ◌%◌, ◌^◌, ◌≤◌, ◌<◌, ◌≡◌, ap, ◌∙◌, List, [], ◌++◌, arith, ok, ◌⊎◌,
}
use cubic_server.Common.Words.{shl, sar64}
use cubic_server.Common.Bits.{disjoint-bit_or}
use cubic_server.Common.Masks.{bit_and_mask}
use cubic_server.Protocol.Types.{Position}
use cubic_server.Protocol.Cursor.{bind_ok}
use cubic_server.Protocol.Add.{add_long, add_position}
use cubic_server.Protocol.Pop.{pop_long, pop_position}
use native.Mathlib.Nat.{mod-eq_of_lt}
use Prim.Native.Nat.{bit_and, bit_or}
use cubic_server.Protocol.RoundTrip.Values.{pop_long-add_long}

-- A position whose x and z fit 26 signed bits and whose y fits 12: the patterns below the sign bit
-- and those that it fills up.
abbrev pub FitsSigned : ℕ → ℕ → Type 0
FitsSigned n w = (w < 2 ^ (n - 1)) ⊎ ((2 ^ 64 - 2 ^ (n - 1) ≤ w) × (w < 2 ^ 64))

packed : (x z y : ℕ) → ℕ
packed x z y = x * 2 ^ 38 + z * 2 ^ 12 + y

add_position-packed :
    (p : Position)
    → add_position [] p ≡ add_long [] (packed (p.x % 2 ^ 26) (p.z % 2 ^ 26) (p.y % 2 ^ 12))
unfolding add_position packed
add_position-packed p = ap (add_long []) packed_eq
  where
    a : ℕ
    a = p.x % 2 ^ 26

    b : ℕ
    b = p.z % 2 ^ 26

    upper : bit_or (a * 2 ^ 38) (b * 2 ^ 12) ≡ (a * 2 ^ 26 + b) * 2 ^ 12
    upper = omega (arith, disjoint-bit_or 38 a (b * 2 ^ 12) (omega arith))

    packed_eq :
        bit_or
          (bit_or (shl 64 (bit_and p.x 0x3ffffff) 38) (shl 64 (bit_and p.z 0x3ffffff) 12))
          (bit_and p.y 0xfff)
        ≡ packed a b (p.y % 2 ^ 12)
    packed_eq =
        rw (bit_and_mask 26 p.x, bit_and_mask 26 p.z, bit_and_mask 12 p.y)
          (rw
            (
              mod-eq_of_lt {n = a * 2 ^ 38} {m = 2 ^ 64} (omega arith),
              mod-eq_of_lt {n = b * 2 ^ 12} {m = 2 ^ 64} (omega arith),
              upper,
            )
            (omega (arith, disjoint-bit_or 12 (a * 2 ^ 26 + b) (p.y % 2 ^ 12) (omega arith))))

-- `sar64` on the shifted word copies the sign of the field back.
unpack_x :
    (w z y : ℕ) → FitsSigned 26 w → z < 2 ^ 26 → y < 2 ^ 12 → sar64 (packed (w % 2 ^ 26) z y) 38 ≡ w
unfolding packed
unpack_x w z y h hz hy = ground arith

unpack_z :
    (x w y : ℕ)
    → x < 2 ^ 26
    → FitsSigned 26 w
    → y < 2 ^ 12
    → sar64 (shl 64 (packed x (w % 2 ^ 26) y) 26) 38 ≡ w
unfolding packed
unpack_z x w y hx h hy = ground arith

unpack_y :
    (x z w : ℕ)
    → x < 2 ^ 26
    → z < 2 ^ 26
    → FitsSigned 12 w
    → sar64 (shl 64 (packed x z (w % 2 ^ 12)) 52) 52 ≡ w
unfolding packed
unpack_y x z w hx hz h = ground arith

-- A position whose x and z fit in 26 signed bits and whose y fits in 12 is read back by
-- popPosition, signs included.
pub pop_position-add_position :
    (p : Position) (rest : List ℕ)
    → FitsSigned 26 p.x
    → FitsSigned 12 p.y
    → FitsSigned 26 p.z
    → pop_position (add_position [] p ++ rest) ≡ ok (p, rest)
unfolding pop_position packed
pop_position-add_position p rest hx hy hz = rw (add_position-packed p) (
    bind_ok pop_long _ _ (pop_long-add_long _ rest (omega arith))
    ∙ rw (
      unpack_x p.x (p.z % 2 ^ 26) (p.y % 2 ^ 12) hx (omega arith) (omega arith),
      unpack_z (p.x % 2 ^ 26) p.z (p.y % 2 ^ 12) (omega arith) hz (omega arith),
      unpack_y (p.x % 2 ^ 26) (p.z % 2 ^ 26) p.y (omega arith) (omega arith) hy,
    ))
