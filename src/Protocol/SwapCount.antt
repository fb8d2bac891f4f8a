-- ===== src/Protocol/SwapCount.antt =====
-- cubic-server/protocol/Structures.hpp: moving a number of items.
use cubic_server.Common.{
  ℕ, ◌+◌, ◌-◌, ◌%◌, ◌≤◌, ◌<◌, ◌≡◌, ◌≢◌, ◌⊎◌, inl, inr, refl, ap, ◌∙◌, subst, dec_lt, arith, Bool,
  true, false, not, ◌&&◌, if◌then◌else◌, ◌==◌, eq→==, ne→==, ℕ_discrete, yes, no, lt→ltb, le→ltb,
  le→leb, lt→leb,
}
use cubic_server.Protocol.Types.{Slot}
use cubic_server.Protocol.Slots.{raised, swap, give_back, swap_count}
use cubic_server.Protocol.SlotLaws.{
  nothing, items, empty, stack, amount, Kept, raised_small, amount_same, amount-zero, swap-Kept,
  Filled,
}

pub raised_word : (c : ℕ) → c < 128 → raised c ≡ c + 256
raised_word c h = rw (lt→ltb c 128 h) refl

give_back_over :
    (i m k : ℕ)
    → m ≤ 64
    → k < 128
    → 64 < k
    → m + (k - 64) ≤ 64
    → give_back (items i m) (items i k) ≡ (items i (m + (k - 64)), items i 64)
give_back_over i m k h p q s =
    rw (raised_word k p, lt→ltb 320 (k + 256) (omega arith))
      (ap (λ (t : ℕ). (items i t, items i 64)) (omega arith))

give_back_fits : (i m k : ℕ) → k ≤ 64 → give_back (items i m) (items i k) ≡ (items i m, items i k)
give_back_fits i m k p = rw (raised_small k p, le→ltb 320 (k + 256) (omega arith)) refl

-- Moving x of m items of a slot to a slot with k of them, or with none.
give_back-Kept :
    (id i m k x : ℕ)
    → i ≢ 0
    → m ≤ 64
    → k ≤ 64
    → x < m
    → Kept id
        (items i m)
        (items i k)
        (give_back (items i ((m + (256 - x)) % 256)) (items i ((k + x) % 256)))
give_back-Kept id i m k x ne h p q =
    subst
      (λ (t : ℕ). Kept id (items i m) (items i k) (give_back (items i t) (items i ((k + x) % 256))))
      (less m x h q)
      (subst (λ (t : ℕ). Kept id (items i m) (items i k) (give_back (items i (m - x)) (items i t)))
        (more k x p (omega arith))
        (elim (dec_lt 64 (k + x)) [
          | yes over ↦
              rw (give_back_over i (m - x) (k + x) (omega arith) (omega arith) over (omega arith)) (
                amount_same id i (m - x + (k + x - 64)) 64 m k (omega arith),
                stack ne (omega arith),
                stack ne (omega arith),
              )
          | no fits ↦ rw (give_back_fits i (m - x) (k + x) (omega arith)) (
            amount_same id i (m - x) (k + x) m k (omega arith),
            stack ne (omega arith),
            stack ne (omega arith),
          )
        ]))
  where
    less : (m x : ℕ) → m ≤ 64 → x < m → m - x ≡ (m + (256 - x)) % 256
    less m x h q = omega arith

    more : (k x : ℕ) → k ≤ 64 → x < 64 → k + x ≡ (k + x) % 256
    more k x p q = omega arith

swap_count_moves :
    (a b : Slot) (x : ℕ)
    → (a.present && b.present && not (a.item_id == b.item_id)) ≡ false
    → raised x < raised a.item_count
    → swap_count a b x
      ≡ give_back
          (record a { item_count = (a.item_count + (256 - x)) % 256 })
          (record { present = true; item_id = a.item_id; item_count = (b.item_count + x) % 256 })
unfolding swap_count
swap_count_moves a b x e h = rw (e, lt→leb (raised a.item_count) (raised x) h) refl

either : (t : Bool) (r : Slot × Slot) → (if t then r else r) ≡ r
either true r = refl
either false r = refl

swap_count-swap :
    (a b : Slot) (x : ℕ)
    → ((a.present && b.present && not (a.item_id == b.item_id)) ≡ true)
      ⊎ (raised a.item_count ≤ raised x)
    → swap_count a b x ≡ swap a b
unfolding swap_count
swap_count-swap a b x (inl e) = rw e refl
swap_count-swap a b x (inr h) =
    rw (le→leb (raised a.item_count) (raised x) h)
      (either (a.present && b.present && not (a.item_id == b.item_id)) (swap a b))

-- Where `*this` has no more than x items, all of them are moved.
few-Kept :
    (id x : ℕ) (a b : Slot)
    → Filled a
    → Filled b
    → raised a.item_count ≤ raised x
    → Kept id a b (swap_count a b x)
few-Kept id x a b f g h = rw (swap_count-swap a b x (inr h)) (swap-Kept id a b f g)

raised_mono : (m x : ℕ) → m ≤ 64 → x < 128 → m ≤ x → raised m ≤ raised x
raised_mono m x h p q = omega (arith, raised_small m h, raised_word x p)

raised_strict : (m x : ℕ) → m ≤ 64 → x < 128 → x < m → raised x < raised m
raised_strict m x h p q = omega (arith, raised_small m h, raised_word x p)

to_empty-Kept :
    (id i m x : ℕ)
    → i ≢ 0
    → m ≤ 64
    → x < m
    → Kept id (items i m) nothing (swap_count (items i m) nothing x)
to_empty-Kept id i m x ne h q =
    rw (swap_count_moves (items i m) nothing x refl (raised_strict m x h (omega arith) q)) (
      let (kept, f, g) = give_back-Kept id i m 0 x ne h (omega arith) q in
      (kept ∙ ap (λ (t : ℕ). amount id (items i m) + t) (amount-zero id i), f, g))

to_stack-Kept :
    (id i m k x : ℕ)
    → i ≢ 0
    → m ≤ 64
    → k ≤ 64
    → x < m
    → Kept id (items i m) (items i k) (swap_count (items i m) (items i k) x)
to_stack-Kept id i m k x ne h p q =
    rw
      (swap_count_moves (items i m) (items i k) x (rw (eq→== i i refl) refl)
        (raised_strict m x h (omega arith) q))
      (give_back-Kept id i m k x ne h p q)

-- On two slots that are empty or hold up to 64 of an item, moving a count below 128 from one to
-- the other keeps how many items of every id the two hold together, and leaves two such slots.
pub swap_count-Kept :
    (id : ℕ) (a b : Slot) (x : ℕ) → Filled a → Filled b → x < 128 → Kept id a b (swap_count a b x)
swap_count-Kept id a b x empty g p =
    few-Kept id x nothing b empty g (raised_mono 0 x (omega arith) p (omega arith))
swap_count-Kept id a b x (stack {id = i} {count = m} ne h) empty p = elim (dec_lt x m) [
  | yes q ↦ to_empty-Kept id i m x ne h q
  | no q ↦ few-Kept id x (items i m) nothing (stack ne h) empty (raised_mono m x h p (omega arith))
]
swap_count-Kept id a b x (stack {id = i} {count = m} ne h) (stack {id = j} {count = k} ne' h') p =
    elim (ℕ_discrete i j) [
      | no other ↦
          rw (swap_count-swap (items i m) (items j k) x (inl (rw (ne→== i j other) refl)))
            (swap-Kept id (items i m) (items j k) (stack ne h) (stack ne' h'))
      | yes e ↦ elim (dec_lt x m) [
        | yes q ↦
            subst
              (λ (t : ℕ). Kept id (items i m) (items t k) (swap_count (items i m) (items t k) x)) e
              (to_stack-Kept id i m k x ne h h' q)
        | no q ↦
            few-Kept id x (items i m) (items j k) (stack ne h) (stack ne' h')
              (raised_mono m x h p (omega arith))
      ]
    ]
