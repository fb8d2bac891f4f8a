-- ===== src/Containers/Drops.antt =====
-- cubic-server/protocol/container/Container.cpp: clicks that drop items, and clicks outside the window.
use cubic_server.Common.{
  ℕ, ◌+◌, ◌-◌, ◌%◌, ◌≤◌, ◌<◌, ◌≡◌, ◌≢◌, refl, sym, ap, subst, arith, Bool, true, false, not, ◌==◌,
  ne→==, dec_lt, yes, no,
}
use cubic_server.Protocol.Types.{Slot}
use cubic_server.Protocol.Slots.{reset}
use cubic_server.Protocol.SlotLaws.{Filled, empty, stack, nothing, items, amount}
use cubic_server.Containers.Slots.{Inventory, Place, in_cursor, at, read, write}
use cubic_server.Containers.Stock.{
  Inside, sum_all-write, Stocked, write-Stocked, read-Filled, at-Inside, at-other,
}
use cubic_server.Containers.Click.{
  dropping, one_of, take_one, click_outside, click, close, drop_slot,
}
use cubic_server.Containers.Conserve.{
  Conserves, same-Conserves, with_slot-Conserves, if-Conserves, click_slot-Conserves,
}

-- The slot is counted, if there is something in it.
abbrev pub Counted : Slot → Type 0
Counted s = s.present ≡ true → 1 ≤ s.item_count

amount_less :
    (id i c : ℕ)
    → 1 ≤ c
    → amount id (items i (c - 1)) + amount id (items i 1) ≡ amount id (items i c)
amount_less id i c h = ground arith

amount_one : (id i : ℕ) → amount id nothing + amount id (items i 1) ≡ amount id (items i 1)
amount_one id i = omega arith

take_one_more : (i c : ℕ) → 1 < c → c ≤ 64 → take_one (items i c) ≡ items i (c - 1)
unfolding reset
take_one_more i c h k =
    rw (ne→== ((c + 255) % 256) 0 (λ e. absurd (omega arith))) (ap (items i) (omega arith))

take_one_last : (i : ℕ) → take_one (items i 1) ≡ nothing
unfolding reset
take_one_last i = refl

-- One item of a slot, and the rest.
abbrev Parts : ℕ → Slot → Slot → Type 0
Parts id s left = (amount id left + amount id (one_of s) ≡ amount id s) × Filled left

take_one-Parts :
    (id : ℕ) (s : Slot) → Filled s → s.present ≡ true → Counted s → Parts id s (take_one s)
take_one-Parts id s empty e n = cc
take_one-Parts id s (stack {id = i} {count = c} ne h) e n = elim (dec_lt 1 c) [
  | yes more ↦
      subst (Parts id (items i c)) (sym (take_one_more i c more h))
        (amount_less id i c (n refl), stack ne (omega arith))
  | no one ↦
      let only : 1 ≡ c = omega (arith, n refl) in
      subst (λ (k : ℕ). Parts id (items i k) (take_one (items i k))) only
        (subst (Parts id (items i 1)) (sym (take_one_last i)) (amount_one id i, empty))
]

amount-reset : (id : ℕ) (s : Slot) → (amount id (reset s) ≡ 0) × Filled (reset s)
unfolding reset
amount-reset id s = (refl, empty)

-- A slot is written, and what it no longer has is dropped.
dropping-Conserves :
    (id : ℕ) (inv : Inventory) (p : Place) (left item : Slot)
    → Stocked inv
    → Inside inv p
    → amount id left + amount id item ≡ amount id (read inv p)
    → Filled left
    → Conserves id inv (dropping item (write inv p left))
dropping-Conserves id inv p left item h i e f =
    (omega (arith, sum_all-write (amount id) inv p left i), write-Stocked inv p left h f)

not-false : (b : Bool) → not b ≡ false → b ≡ true
not-false true e = refl
not-false false e = cc

pub drop_slot-Conserves :
    (id : ℕ) (inv : Inventory) (button : ℕ) (p : Place)
    → Stocked inv
    → Inside inv p
    → Counted (read inv p)
    → Conserves id inv (drop_slot inv button p)
unfolding drop_slot
drop_slot-Conserves id inv button p h i n =
    if-Conserves id inv (not s.present) _ _ (λ _. same-Conserves id inv h)
      (λ there.
        if-Conserves id inv (button == 0) _ _
          (λ _.
            let (e, f) =
              take_one-Parts id s (read-Filled inv p h i) (not-false s.present there) n in
            dropping-Conserves id inv p (take_one s) (one_of s) h i e f)
          (λ _.
            let (e, f) = amount-reset id s in
            dropping-Conserves id inv p (reset s) s h i (omega arith) f))
  where
    s : Slot
    s = read inv p

click_outside-Conserves :
    (id : ℕ) (inv : Inventory) (button : ℕ)
    → Stocked inv
    → Counted inv.cursor
    → Conserves id inv (click_outside inv button)
unfolding click_outside read write
click_outside-Conserves id inv button h n =
    if-Conserves id inv (not inv.cursor.present) _ _ (λ _. same-Conserves id inv h)
      (λ there.
        if-Conserves id inv (button == 0) _ _
          (λ _.
            let (e, f) = amount-reset id inv.cursor in
            dropping-Conserves id inv in_cursor (reset inv.cursor) inv.cursor h tt (omega arith) f)
          (λ _.
            let (e, f) = take_one-Parts id inv.cursor h.0 (not-false inv.cursor.present there) n in
            dropping-Conserves id inv in_cursor (take_one inv.cursor) (one_of inv.cursor) h tt e f))

-- Closing the inventory drops what the cursor holds, once, and keeps the rest.
close-Conserves : (id : ℕ) (inv : Inventory) → Stocked inv → Conserves id inv (close inv)
unfolding close read write
close-Conserves id inv h =
    if-Conserves id inv inv.cursor.present _ _
      (λ _.
        let (e, f) = amount-reset id inv.cursor in
        dropping-Conserves id inv in_cursor (reset inv.cursor) inv.cursor h tt (omega arith) f)
      (λ _. same-Conserves id inv h)

pub click-Conserves :
    (id : ℕ) (inv : Inventory) (index button : ℕ)
    → Stocked inv
    → index ≢ 0xffff
    → Counted inv.cursor
    → Conserves id inv (click inv index button)
unfolding click
click-Conserves id inv index button h ne n =
    if-Conserves id inv (index == 64537) _ _ (λ _. click_outside-Conserves id inv button h n)
      (λ _. with_slot-Conserves id inv (at index) _ h (λ p e.
        click_slot-Conserves id inv button p h (at-Inside inv index p h e) (at-other index p ne e)))
