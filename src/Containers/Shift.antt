-- ===== src/Containers/Shift.antt =====
-- cubic-server/protocol/container/Inventory.cpp: a shift click moves the items of a slot into an array
-- of slots.
use cubic_server.Common.{
  ℕ, suc, ◌+◌, ◌-◌, ◌≤◌, ◌<◌, ◌≡◌, ◌≢◌, refl, sym, ap, ◌∙◌, subst, arith, Bool, true, false, List,
  [], ◌∷◌, ◌++◌, length, All, if◌then◌else◌, eq→==, ne→==, ℕ_discrete, dec_lt, yes, no, lt→ltb,
  le→ltb,
}
use cubic_server.Protocol.Types.{Slot}
use cubic_server.Protocol.Slots.{reset, same_item}
use cubic_server.Protocol.SlotLaws.{
  Filled, empty, stack, nothing, items, amount, amount_same, amount-zero, raised_small,
}
use cubic_server.Protocol.SwapCount.{raised_word}
use cubic_server.Containers.Stock.{sum_of}
use native.Mathlib.Nat.{mod-eq_of_lt}
use cubic_server.Containers.Drag.{join_stacks, first_free, swap_container}

-- A slot that is empty or holds up to 63 of an item: with a full one it still is an int8_t.
pub data Light : Slot → Type 0 where
  none_held : Light nothing
  few : {id count : ℕ} → id ≢ 0 → count ≤ 63 → Light (items id count)

pub Light-Filled : (s : Slot) → Light s → Filled s
Light-Filled s none_held = empty
Light-Filled s (few ne h) = stack ne (omega arith)

-- The slots and what is left of the moved one hold what the slots and the moved one held.
abbrev pub Moved : ℕ → List Slot → Slot → List Slot × Slot → Type 0
Moved id container slot (after, left) =
    (sum_of (amount id) after + amount id left ≡ sum_of (amount id) container + amount id slot)
    × All Filled after
    × (length after ≡ length container)
    × Filled left

abbrev pair_of : List Slot × Slot × Bool → List Slot × Slot
pair_of (after, left, returned) = (after, left)

-- Slots of different items are left alone.
pass :
    (id : ℕ) (s slot : Slot) (container : List Slot)
    → same_item s slot ≡ false
    → Filled s
    → Moved id container slot (pair_of (join_stacks container slot))
    → Moved id (s ∷ container) slot (pair_of (join_stacks (s ∷ container) slot))
unfolding join_stacks
pass id s slot container e f (kept, all, size, left) =
    rw e (omega (arith, kept), (f, all), ap suc size, left)

same_item_ne : (i j c m : ℕ) → i ≢ j → same_item (items i c) (items j m) ≡ false
unfolding same_item
same_item_ne i j c m ne = ne→== i j ne

same_item_eq : (i c m : ℕ) → same_item (items i c) (items i m) ≡ true
unfolding same_item
same_item_eq i c m = eq→== i i refl

joins :
    (i c m : ℕ) (container : List Slot)
    → c + m ≤ 64
    → join_stacks (items i c ∷ container) (items i m) ≡ (items i (c + m) ∷ container, nothing, true)
unfolding join_stacks reset
joins i c m container h =
    rw
      (
        same_item_eq i c m,
        mod-eq_of_lt {n = c + m} {m = 256} (omega arith),
        raised_small (c + m) h,
        le→ltb 320 (c + m + 256) (omega arith),
      )
      refl

fills :
    (i c m : ℕ) (container : List Slot)
    → c ≤ 64
    → m ≤ 63
    → 64 < c + m
    → join_stacks (items i c ∷ container) (items i m) ≡ (
        let (rest, left, returned) = join_stacks container (items i (c + m - 64)) in
        (items i 64 ∷ rest, left, returned))
unfolding join_stacks
fills i c m container h k over =
    rw
      (
        same_item_eq i c m,
        mod-eq_of_lt {n = c + m} {m = 256} (omega arith),
        raised_word (c + m) (omega arith),
        lt→ltb 320 (c + m + 256) (omega arith),
      )
      (rw (mod-eq_of_lt {n = c + m - 64} {m = 256} (omega arith)) refl)

-- A stack of the same item takes all, or is filled and leaves the rest to the other slots.
same_stack :
    (id i c m : ℕ) (container : List Slot)
    → i ≢ 0
    → c ≤ 64
    → m ≤ 63
    → All Filled container
    → ((k : ℕ)
        → k ≤ 63
        → Moved id container (items i k) (pair_of (join_stacks container (items i k))))
    → Moved id
        (items i c ∷ container)
        (items i m)
        (pair_of (join_stacks (items i c ∷ container) (items i m)))
same_stack id i c m container ne h k all rest = elim (dec_lt 64 (c + m)) [
  | no fit ↦ rw (joins i c m container (omega arith)) (
    omega (arith, amount_same id i (c + m) 0 c m (omega arith), amount-zero id i),
    (stack ne (omega arith), all),
    refl,
    empty,
  )
  | yes over ↦
      let (kept, filled, size, left) = rest (c + m - 64) (omega arith) in
      rw (fills i c m container h k over) (
        omega (arith, kept, amount_same id i 64 (c + m - 64) c m (omega arith)),
        (stack ne (omega arith), filled),
        ap suc size,
        left,
      )
]

join_stacks-Moved :
    (id : ℕ) (slot : Slot) (container : List Slot)
    → Light slot
    → All Filled container
    → Moved id container slot (pair_of (join_stacks container slot))
unfolding join_stacks same_item
join_stacks-Moved id slot [] l h = (refl, tt, refl, Light-Filled slot l)
join_stacks-Moved id slot (s ∷ container) none_held (empty, h) = (refl, (empty, h), refl, empty)
join_stacks-Moved id slot (s ∷ container) none_held (stack {id = i} {count = c} ne k, h) =
    pass id (items i c) nothing container refl (stack ne k)
      (join_stacks-Moved id nothing container none_held h)
join_stacks-Moved id slot (s ∷ container) (few {id = j} {count = m} ne k) (empty, h) =
    pass id nothing (items j m) container refl empty
      (join_stacks-Moved id (items j m) container (few ne k) h)
join_stacks-Moved id slot (s ∷ container) (few {id = j} {count = m} ne k)
      (stack {id = i} {count = c} ne' k', h) =
    elim (ℕ_discrete i j) [
      | no other ↦
          pass id (items i c) (items j m) container (same_item_ne i j c m other) (stack ne' k')
            (join_stacks-Moved id (items j m) container (few ne k) h)
      | yes e ↦
          subst
            (λ (t : ℕ).
              Moved id (items t c ∷ container) (items j m)
                (pair_of (join_stacks (items t c ∷ container) (items j m))))
            (sym e)
            (same_stack id j c m container ne k' k h
              (λ n small. join_stacks-Moved id (items j n) container (few ne small) h))
    ]

first_free-Moved :
    (id : ℕ) (slot : Slot) (container : List Slot)
    → Filled slot
    → All Filled container
    → Moved id container slot (first_free container slot)
unfolding first_free
first_free-Moved id slot [] f h = (refl, tt, refl, f)
first_free-Moved id slot (s ∷ container) f (empty, h) = (omega arith, (f, h), refl, empty)
first_free-Moved id slot (s ∷ container) f (stack {id = i} {count = c} ne k, h) =
    let (kept, all, size, left) = first_free-Moved id slot container f h in
    (omega (arith, kept), (stack ne k, all), ap suc size, left)

Moved-then :
    (id : ℕ) (container : List Slot) (slot : Slot) (r : List Slot × Slot)
    → Moved id container slot r
    → Moved id container slot (first_free r.0 r.1)
Moved-then id container slot (joined, left) (kept, all, size, f) =
    let (kept', all', size', f') = first_free-Moved id left joined f all in
    (omega (arith, kept, kept'), all', size' ∙ size, f')

Moved-if :
    (id : ℕ) (container : List Slot) (slot : Slot) (b : Bool) (r t : List Slot × Slot)
    → Moved id container slot r
    → Moved id container slot t
    → Moved id container slot (if b then r else t)
Moved-if id container slot true r t h k = h
Moved-if id container slot false r t h k = k

pub swap_container-Moved :
    (id : ℕ) (slot : Slot) (container : List Slot)
    → Light slot
    → All Filled container
    → Moved id container slot (swap_container slot container)
unfolding swap_container
swap_container-Moved id slot container l h =
    let joined = join_stacks-Moved id slot container l h in
    Moved-if id container slot (join_stacks container slot).2 (pair_of (join_stacks container slot))
      _ joined (Moved-then id container slot (pair_of (join_stacks container slot)) joined)

join_stacks_full :
    (i : ℕ) (front back : List Slot)
    → All (λ s. same_item s (items i 64) ≡ false) front
    → join_stacks (front ++ (items i 64 ∷ back)) (items i 64)
      ≡ (front ++ (items i 128 ∷ back), nothing, true)
unfolding join_stacks reset
join_stacks_full i [] back h = rw (same_item_eq i 64 64) refl
join_stacks_full i (s ∷ front) back (e, h) =
    rw e
      (ap (λ (r : List Slot × Slot × Bool). (s ∷ r.0, r.1, r.2)) (join_stacks_full i front back h))

-- A full stack that swapContainer moves to slots of which the first with the same item is full
-- is lost: the moved slot is reset, the other one counts -128, and the slots before and behind
-- it stay.
pub swap_container_full :
    (i : ℕ) (front back : List Slot)
    → All (λ s. same_item s (items i 64) ≡ false) front
    → swap_container (items i 64) (front ++ (items i 64 ∷ back))
      ≡ (front ++ (items i 128 ∷ back), nothing)
unfolding swap_container
swap_container_full i front back h = rw (join_stacks_full i front back h) refl
