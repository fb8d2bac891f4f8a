-- ===== src/Protocol/RoundTrip/VarInt.antt =====
-- Variable-length numbers: addVarInt, addVarLong, popVarInt and popVarLong.
use cubic_server.Common.{
  ℕ, zero, suc, ◌+◌, ◌*◌, ◌/◌, ◌%◌, ◌^◌, ◌≤◌, ◌<◌, ◌≡◌, ap, List, [], ◌∷◌, ◌++◌, append_assoc,
  arith, ltb, if◌then◌else◌, length, ok, dec_lt,
}
use cubic_server.Common.Words.{shl, IsBytes}
use cubic_server.Common.Bits.{bit_or_disjoint, pow-add}
use cubic_server.Common.Masks.{bit_and_mask, bit_and_top, bit_or_top}
use cubic_server.Protocol.Add.{add_var_loop, add_var_int}
use cubic_server.Protocol.Pop.{pop_var_loop, pop_var_int, pop_var_long}
use Prim.Native.Nat.{bit_or}
use cubic_server.Common.Order.{lt_wf}
use mathlib.Core.WellFounded.{Acc}
use native.Mathlib.Nat.{mod-eq_of_lt, pow-le-pow_right, div-add-mod'}

-- The format, in plain arithmetic: groups of seven bits, lowest first, for v below 128 ^ (k + 1).
unfoldable pub var_bytes : ℕ → ℕ → List ℕ
var_bytes zero v = v ∷ []
var_bytes (suc k) v =
    let rest = var_bytes k (v / 128) in if ltb v 128 then v ∷ [] else (v % 128 + 128) ∷ rest

add_var_loop-var_bytes :
    (k : ℕ) (out : List ℕ) (v : ℕ) (w : Acc ◌<◌ v)
    → v < 128 ^ suc k
    → add_var_loop out v w ≡ out ++ var_bytes k v
unfolding add_var_loop var_bytes
add_var_loop-var_bytes zero out v (Acc.intro _ smaller) h = ground arith
add_var_loop-var_bytes (suc k) out v (Acc.intro _ smaller) h =
    let byte : List ℕ = (v % 128 + 128) ∷ [] in
    grind (
      arith,
      bit_and_mask 7 v,
      bit_or_top (v % 128) (omega arith),
      λ (w : Acc ◌<◌ (v / 128)). add_var_loop-var_bytes k (out ++ byte) (v / 128) w (omega arith),
      append_assoc out byte (var_bytes k (v / 128)),
    )

-- On any 64-bit word the loop of addVarInt and addVarLong, which works on the bits, appends the
-- bytes of the format, written as arithmetic on groups of seven bits.
pub add_var_int-var_bytes :
    (out : List ℕ) (v : ℕ) → v < 2 ^ 64 → add_var_int out v ≡ out ++ var_bytes 9 v
unfolding add_var_int
add_var_int-var_bytes out v h = add_var_loop-var_bytes 9 out v (lt_wf.apply v) (omega arith)

var_bytes-IsBytes : (k v : ℕ) → v < 128 ^ suc k → IsBytes (var_bytes k v)
unfolding var_bytes
var_bytes-IsBytes zero v h = (omega arith, tt)
var_bytes-IsBytes (suc k) v h = ground (arith, var_bytes-IsBytes k (v / 128) (omega arith))

pub length-var_bytes : (k v : ℕ) → (1 ≤ length (var_bytes k v)) × (length (var_bytes k v) ≤ k + 1)
unfolding var_bytes
length-var_bytes zero v = omega arith
length-var_bytes (suc k) v = ground (arith, length-var_bytes k (v / 128))

-- One group, or-ed into the bits that are there.
group_joins :
    (w g a p : ℕ) → a < 2 ^ p → a + g * 2 ^ p < 2 ^ w → bit_or a (shl w g p) ≡ a + g * 2 ^ p
group_joins w g a p ha fits =
    omega (arith, ap (bit_or a) (mod-eq_of_lt (high_fits)), bit_or_disjoint p g a ha)
  where
    high_fits : g * 2 ^ p < 2 ^ w
    high_fits = omega arith

last_round :
    (w b a p : ℕ) (rest : List ℕ)
    → b < 128
    → a < 2 ^ p
    → a + b * 2 ^ p < 2 ^ w
    → pop_var_loop w (b ∷ rest) a p ≡ ok (a + b * 2 ^ p, rest)
unfolding pop_var_loop
last_round w b a p rest hb ha fits =
    ground (arith, bit_and_mask 7 b, bit_and_top b (omega arith), group_joins w b a p ha fits)

pow_seven : (p : ℕ) → 2 ^ (p + 7) ≡ 128 * 2 ^ p
pow_seven p = omega (arith, pow-add p 7)

mul_mono : (a b p : ℕ) → a ≤ b → a * p ≤ b * p
mul_mono a b p h = grind arith

room_left : (w v p : ℕ) → 128 ≤ v → v * 2 ^ p < 2 ^ w → p + 7 < w
room_left w v p hv fits = elim (dec_lt (p + 7) w) [
  | yes h ↦ h
  | no h ↦ absurd (
      omega (
        arith,
        pow-le-pow_right {n = 2} (omega arith) {i = w} {j = p + 7} (omega arith),
        pow_seven p,
        mul_mono 128 v (2 ^ p) hv,
      ))
]

more_round :
    (w g a p : ℕ) (rest : List ℕ)
    → g < 128
    → a < 2 ^ p
    → a + g * 2 ^ p < 2 ^ w
    → p + 7 < w
    → pop_var_loop w ((g + 128) ∷ rest) a p ≡ pop_var_loop w rest (a + g * 2 ^ p) (p + 7)
unfolding pop_var_loop
more_round w g a p rest hg ha fits room = ground (
  arith,
  bit_and_mask 7 (g + 128),
  bit_and_top (g + 128) (omega arith),
  group_joins w g a p ha fits,
)

groups_join : (v p : ℕ) → v * 2 ^ p ≡ v % 128 * 2 ^ p + v / 128 * 2 ^ (p + 7)
groups_join v p = omega (
  arith,
  ap (λ (t : ℕ). t * 2 ^ p) (div-add-mod' v 128),
  ap (λ (t : ℕ). v / 128 * t) (pow_seven p),
)

pop_var_loop-var_bytes :
    (w k v a p : ℕ) (rest : List ℕ)
    → v < 128 ^ suc k
    → a < 2 ^ p
    → a + v * 2 ^ p < 2 ^ w
    → pop_var_loop w (var_bytes k v ++ rest) a p ≡ ok (a + v * 2 ^ p, rest)
unfolding var_bytes
pop_var_loop-var_bytes w zero v a p rest hv ha fits = last_round w v a p rest hv ha fits
pop_var_loop-var_bytes w (suc k) v a p rest hv ha fits = ground (
  arith,
  last_round w v a p rest,
  groups_join v p,
  more_round w (v % 128) a p (var_bytes k (v / 128) ++ rest),
  room_left w v p,
  pow_seven p,
  mul_mono (v % 128) 127 (2 ^ p) (omega arith),
  pop_var_loop-var_bytes w k (v / 128) (a + v % 128 * 2 ^ p) (p + 7) rest (omega arith),
)

-- A 32-bit number that addVarInt wrote is read back by popVarInt, which stops behind it.
pub pop_var_int-add_var_int :
    (v : ℕ) (rest : List ℕ) → v < 2 ^ 32 → pop_var_int (add_var_int [] v ++ rest) ≡ ok (v, rest)
unfolding pop_var_int
pop_var_int-add_var_int v rest h =
    rw (add_var_int-var_bytes [] v (omega arith))
      (ground (arith, pop_var_loop-var_bytes 32 9 v 0 0 rest (omega arith) (omega arith)))

-- A 64-bit number that addVarLong wrote is read back by popVarLong, which stops behind it.
pub pop_var_long-add_var_long :
    (v : ℕ) (rest : List ℕ) → v < 2 ^ 64 → pop_var_long (add_var_int [] v ++ rest) ≡ ok (v, rest)
unfolding pop_var_long
pop_var_long-add_var_long v rest h =
    rw (add_var_int-var_bytes [] v h)
      (ground (arith, pop_var_loop-var_bytes 64 9 v 0 0 rest (omega arith) (omega arith)))
