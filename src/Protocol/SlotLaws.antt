-- ===== src/Protocol/SlotLaws.antt =====
-- cubic-server/protocol/Structures.hpp: no swap makes or loses items.
use cubic_server.Common.{
  ℕ, ◌+◌, ◌-◌, ◌≤◌, ◌<◌, ◌≡◌, ◌≢◌, refl, sym, ap, ◌∙◌, subst, dec_lt, arith, true, false, ◌&&◌,
  if◌then◌else◌, ◌==◌, eq→==, ne→==, ℕ_discrete, yes, no, lt→ltb, le→ltb,
}
use cubic_server.Protocol.Types.{Slot}
use cubic_server.Protocol.Slots.{raised, reset, swap}

abbrev pub nothing : Slot
nothing = record { present = false; item_id = 0; item_count = 0 }

abbrev pub items : ℕ → ℕ → Slot
items id count = record { present = true; item_id = id; item_count = count }

-- An empty slot, or up to 64 of an item whose id is not 0.
pub data Filled : Slot → Type 0 where
  empty : Filled nothing
  stack : {id count : ℕ} → id ≢ 0 → count ≤ 64 → Filled (items id count)

-- How many items of an id a slot holds.
abbrev pub amount : ℕ → Slot → ℕ
amount id s = if s.present && (s.item_id == id) then s.item_count else 0

abbrev pub Kept : ℕ → Slot → Slot → Slot × Slot → Type 0
Kept id a b (a', b') =
    (amount id a' + amount id b' ≡ amount id a + amount id b) × Filled a' × Filled b'

pub raised_small : (c : ℕ) → c ≤ 64 → raised c ≡ c + 256
raised_small c h = rw (lt→ltb c 128 (omega arith)) refl

-- Counts of one id add up as the counts do.
pub amount_same :
    (id i a b c d : ℕ)
    → a + b ≡ c + d
    → amount id (items i a) + amount id (items i b) ≡ amount id (items i c) + amount id (items i d)
amount_same id i a b c d e = ground arith

pub amount-zero : (id i : ℕ) → amount id (items i 0) ≡ amount id nothing
amount-zero id i = ground arith

swap_full :
    (i m k : ℕ)
    → i ≢ 0
    → m ≤ 64
    → k ≤ 64
    → 64 < m + k
    → swap (items i m) (items i k) ≡ (items i 64, items i (m + k - 64))
unfolding swap
swap_full i m k ne h p q =
    rw
      (
        eq→== i i refl,
        ne→== i 0 ne,
        raised_small m h,
        raised_small k p,
        lt→ltb 576 (m + 256 + (k + 256)) (omega arith),
      )
      (ap (λ (t : ℕ). (items i 64, items i t)) (omega arith))

swap_joins :
    (i m k : ℕ)
    → i ≢ 0
    → m ≤ 64
    → k ≤ 64
    → m + k ≤ 64
    → swap (items i m) (items i k) ≡ (items i (m + k), nothing)
unfolding swap reset
swap_joins i m k ne h p q =
    rw
      (
        eq→== i i refl,
        ne→== i 0 ne,
        raised_small m h,
        raised_small k p,
        le→ltb 576 (m + 256 + (k + 256)) (omega arith),
      )
      (ap (λ (t : ℕ). (items i t, nothing)) (omega arith))

swap_differ : (a b : Slot) → a.item_id ≢ b.item_id → swap a b ≡ (b, a)
unfolding swap
swap_differ a b ne = rw (ne→== a.item_id b.item_id ne) refl

differ-Kept :
    (id : ℕ) (a b : Slot) → a.item_id ≢ b.item_id → Filled a → Filled b → Kept id a b (swap a b)
differ-Kept id a b ne f g = rw (swap_differ a b ne) (omega arith, g, f)

same-Kept :
    (id i m k : ℕ)
    → i ≢ 0
    → m ≤ 64
    → k ≤ 64
    → Kept id (items i m) (items i k) (swap (items i m) (items i k))
same-Kept id i m k ne h p = elim (dec_lt 64 (m + k)) [
  | yes over ↦ rw (swap_full i m k ne h p over) (
    amount_same id i 64 (m + k - 64) m k (omega arith),
    stack ne (omega arith),
    stack ne (omega arith),
  )
  | no fits ↦ rw (swap_joins i m k ne h p (omega arith)) (joined, stack ne (omega arith), empty)
]
  where
    joined :
        amount id (items i (m + k)) + amount id nothing
        ≡ amount id (items i m) + amount id (items i k)
    joined =
        ap (λ (t : ℕ). amount id (items i (m + k)) + t) (sym (amount-zero id i))
        ∙ amount_same id i (m + k) 0 m k (omega arith)

-- On two slots that are empty or hold up to 64 of an item, swap keeps how many items of every id
-- the two hold together, and leaves two such slots.
pub swap-Kept : (id : ℕ) (a b : Slot) → Filled a → Filled b → Kept id a b (swap a b)
unfolding swap
swap-Kept id a b empty empty = (refl, empty, empty)
swap-Kept id a b empty (stack ne h) =
    differ-Kept id nothing (items _ _) (λ e. ne (sym e)) empty (stack ne h)
swap-Kept id a b (stack ne h) empty = differ-Kept id (items _ _) nothing ne (stack ne h) empty
swap-Kept id a b (stack {id = i} {count = m} ne h) (stack {id = j} {count = k} ne' h') =
    elim (ℕ_discrete i j) [
      | yes e ↦
          subst (λ (t : ℕ). Kept id (items i m) (items t k) (swap (items i m) (items t k))) e
            (same-Kept id i m k ne h h')
      | no other ↦ differ-Kept id (items i m) (items j k) other (stack ne h) (stack ne' h')
    ]
