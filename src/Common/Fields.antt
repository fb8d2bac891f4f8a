-- ===== src/Common/Fields.antt =====
-- Fields of k bits at bit o of a word: read by a shift and a mask, written by clearing and an or.
use cubic_server.Common.Bits.{bit_or_fields, disjoint-bit_or, bit_or-zero, pow_pos, pow-add}
use cubic_server.Common.Masks.{bit_and_mask, clear_field, word_size}
use cubic_server.Common.Words.{shr, shl}
use cubic_server.Common.Digits.{digit_bound}
use Prim.Native.Nat.{ℕ, ◌+◌, ◌-◌, ◌*◌, ◌/◌, ◌%◌, ◌^◌, ◌≤◌, ◌<◌, bit_and, bit_or}
use mathlib.Core.Path.{◌≡◌, refl, sym, ap, ap₂, subst, ◌∙◌}
use native.Mathlib.Nat.{
  div-add-mod', mod-lt, mod-eq_of_lt, div-div-eq-div-mul, div-eq_of_lt, add-mul-div_right, add_comm,
  div-lt_iff_lt-mul, mul-add-mod_self_right,
}
use native.Mathlib.Omega.{arith}

abbrev pub field : (k o x : ℕ) → ℕ
field k o x = x / 2 ^ o % 2 ^ k

-- The word with the field replaced.
abbrev pub put_field : (k o x v : ℕ) → ℕ
put_field k o x v = (x / 2 ^ o / 2 ^ k * 2 ^ k + v) * 2 ^ o + x % 2 ^ o

pub field_bits : (k o x : ℕ) → bit_and (shr x o) (2 ^ k - 1) ≡ field k o x
field_bits k o x = bit_and_mask k (x / 2 ^ o)

-- Division and remainder are determined by their bound.
pub div_unique : (q m r : ℕ) → r < m → (q * m + r) / m ≡ q
div_unique q m r h = omega (
  arith,
  add-mul-div_right r q {z = m} (omega arith),
  div-eq_of_lt h,
  ap (λ (t : ℕ). t / m) (add_comm (q * m) r),
)

pub mod_unique' : (q m r : ℕ) → r < m → (q * m + r) % m ≡ r
mod_unique' q m r h = mul-add-mod_self_right q m r ∙ mod-eq_of_lt h

field_split : (k o x : ℕ) → (x / 2 ^ o / 2 ^ k * 2 ^ k + field k o x) * 2 ^ o + x % 2 ^ o ≡ x
field_split k o x =
    ap (λ (t : ℕ). t * 2 ^ o + x % 2 ^ o) (div-add-mod' (x / 2 ^ o) (2 ^ k))
    ∙ div-add-mod' x (2 ^ o)

pub field-put_self : (k o x v : ℕ) → v < 2 ^ k → field k o (put_field k o x v) ≡ v
field-put_self k o x v h =
    ap (λ (t : ℕ). t % 2 ^ k) (div_unique _ (2 ^ o) (x % 2 ^ o) (mod-lt x (pow_pos o)))
    ∙ mod_unique' _ (2 ^ k) v h

-- Fields above the one written.
div_far : (o k d x : ℕ) → x / 2 ^ (o + k + d) ≡ x / 2 ^ o / 2 ^ k / 2 ^ d
div_far o k d x =
    rw
      (
        pow-add (o + k) d,
        pow-add o k,
        div-div-eq-div-mul x (2 ^ o) (2 ^ k),
        div-div-eq-div-mul x (2 ^ o * 2 ^ k) (2 ^ d),
      )
      refl

put_upper : (k o x v : ℕ) → v < 2 ^ k → put_field k o x v / 2 ^ o / 2 ^ k ≡ x / 2 ^ o / 2 ^ k
put_upper k o x v h =
    ap (λ (t : ℕ). t / 2 ^ k) (div_unique _ (2 ^ o) (x % 2 ^ o) (mod-lt x (pow_pos o)))
    ∙ div_unique _ (2 ^ k) v h

pub field-put_above :
    (k o x v k' o' : ℕ) → v < 2 ^ k → o + k ≤ o' → field k' o' (put_field k o x v) ≡ field k' o' x
field-put_above k o x v k' o' h p = ap (λ (t : ℕ). t % 2 ^ k') above
  where
    far : (y : ℕ) → y / 2 ^ o' ≡ y / 2 ^ o / 2 ^ k / 2 ^ (o' - (o + k))
    far y = ap (λ (t : ℕ). y / 2 ^ t) (omega arith) ∙ div_far o k (o' - (o + k)) y

    above : put_field k o x v / 2 ^ o' ≡ x / 2 ^ o'
    above =
        far (put_field k o x v)
        ∙ ap (λ (t : ℕ). t / 2 ^ (o' - (o + k))) (put_upper k o x v h)
        ∙ sym (far x)

-- Fields below the one written: they lie in the remainder.
field_low : (k o d y l : ℕ) → field k o (y * 2 ^ (o + k + d) + l) ≡ field k o l
field_low k o d y l =
    ap (λ (t : ℕ). t / 2 ^ o % 2 ^ k) regroup
    ∙ ap (λ (t : ℕ). t % 2 ^ k) (add-mul-div_right l (y * 2 ^ d * 2 ^ k) (pow_pos o))
    ∙ ap (λ (t : ℕ). t % 2 ^ k) (add_comm (l / 2 ^ o) (y * 2 ^ d * 2 ^ k))
    ∙ mul-add-mod_self_right (y * 2 ^ d) (2 ^ k) (l / 2 ^ o)
  where
    regroup : y * 2 ^ (o + k + d) + l ≡ l + y * 2 ^ d * 2 ^ k * 2 ^ o
    regroup = rw (pow-add (o + k) d, pow-add o k) (grind arith)

pub field-put_below :
    (k o x v k' o' : ℕ) → o' + k' ≤ o → field k' o' (put_field k o x v) ≡ field k' o' x
field-put_below k o x v k' o' p =
    low (x / 2 ^ o / 2 ^ k * 2 ^ k + v)
    ∙ sym (low (x / 2 ^ o))
    ∙ ap (field k' o') (div-add-mod' x (2 ^ o))
  where
    low : (y : ℕ) → field k' o' (y * 2 ^ o + x % 2 ^ o) ≡ field k' o' (x % 2 ^ o)
    low y =
        ap (λ (t : ℕ). field k' o' (y * 2 ^ t + x % 2 ^ o)) (omega arith)
        ∙ field_low k' o' (o - (o' + k')) y (x % 2 ^ o)

fields-lt :
    (r k o h f l : ℕ)
    → h < 2 ^ r
    → f < 2 ^ k
    → l < 2 ^ o
    → (h * 2 ^ k + f) * 2 ^ o + l < 2 ^ (r + k + o)
fields-lt r k o h f l p q t = rw (word_size r k o) (
    omega (
      arith,
      digit_bound (h * 2 ^ k + f) l (2 ^ o) (2 ^ k * 2 ^ r) (digit_bound h f (2 ^ k) (2 ^ r) p q) t,
      commuted,
    ))
  where
    commuted : 2 ^ o * (2 ^ k * 2 ^ r) ≡ 2 ^ r * 2 ^ k * 2 ^ o
    commuted = grind arith

upper-lt : (r k o x : ℕ) → x < 2 ^ (r + k + o) → x / 2 ^ o / 2 ^ k < 2 ^ r
upper-lt r k o x h =
    (div-lt_iff_lt-mul (pow_pos k)).1
      ((div-lt_iff_lt-mul (pow_pos o)).1 (omega (arith, word_size r k o)))

put_fields-lt :
    (r k o x v : ℕ) → x < 2 ^ (r + k + o) → v < 2 ^ k → put_field k o x v < 2 ^ (r + k + o)
put_fields-lt r k o x v p q = fields-lt r k o _ v _ (upper-lt r k o x p) q (mod-lt x (pow_pos o))

shl_fits : (r k o v : ℕ) → v < 2 ^ k → shl (r + k + o) v o ≡ v * 2 ^ o
shl_fits r k o v h = mod-eq_of_lt (omega (arith, fields-lt r k o 0 v 0 (pow_pos r) h (pow_pos o)))

-- The code's write.
put_fields-bits :
    (r k o x v : ℕ)
    → x < 2 ^ (r + k + o)
    → v < 2 ^ k
    → bit_or (bit_and x (2 ^ (r + k + o) - 1 - shl (r + k + o) (2 ^ k - 1) o)) (shl (r + k + o) v o)
      ≡ put_field k o x v
put_fields-bits r k o x v p q =
    rw (shl_fits r k o v q, shl_fits r k o (2 ^ k - 1) (omega (arith, pow_pos k)), cleared) joined
  where
    h : ℕ
    h = x / 2 ^ o / 2 ^ k

    l : ℕ
    l = x % 2 ^ o

    cleared : bit_and x (2 ^ (r + k + o) - 1 - (2 ^ k - 1) * 2 ^ o) ≡ h * 2 ^ k * 2 ^ o + l
    cleared =
        ap (λ (t : ℕ). bit_and t (2 ^ (r + k + o) - 1 - (2 ^ k - 1) * 2 ^ o))
          (sym (field_split k o x))
        ∙ clear_field r k o h (field k o x) l (upper-lt r k o x p) (mod-lt (x / 2 ^ o) (pow_pos k))
            (mod-lt x (pow_pos o))

    joined : bit_or (h * 2 ^ k * 2 ^ o + l) (v * 2 ^ o) ≡ (h * 2 ^ k + v) * 2 ^ o + l
    joined =
        ap (bit_or (h * 2 ^ k * 2 ^ o + l)) (omega arith)
        ∙ bit_or_fields o (h * 2 ^ k) v l 0 (mod-lt x (pow_pos o)) (pow_pos o)
        ∙ ap₂ (λ (a b : ℕ). a * 2 ^ o + b) (disjoint-bit_or k h v q) (bit_or-zero l)

module _ (w k o : ℕ) (h : o + k ≤ w) where
  word_parts : w ≡ w - (k + o) + k + o
  word_parts = omega arith

  pub put_field-lt : (x v : ℕ) → x < 2 ^ w → v < 2 ^ k → put_field k o x v < 2 ^ w
  put_field-lt x v p q =
      subst (λ (t : ℕ). put_field k o x v < 2 ^ t) (sym word_parts)
        (put_fields-lt (w - (k + o)) k o x v (subst (λ (t : ℕ). x < 2 ^ t) word_parts p) q)

  pub put_field-bits :
      (x v : ℕ)
      → x < 2 ^ w
      → v < 2 ^ k
      → bit_or (bit_and x (2 ^ w - 1 - shl w (2 ^ k - 1) o)) (shl w v o) ≡ put_field k o x v
  put_field-bits x v p q =
      subst
        (λ (t : ℕ).
          bit_or (bit_and x (2 ^ t - 1 - shl t (2 ^ k - 1) o)) (shl t v o) ≡ put_field k o x v)
        (sym word_parts)
        (put_fields-bits (w - (k + o)) k o x v (subst (λ (t : ℕ). x < 2 ^ t) word_parts p) q)
