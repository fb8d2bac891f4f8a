-- ===== src/Containers/Tests.antt =====
-- Clicks on an inventory with two stacks and a single item.
use cubic_server.Common.{ℕ, zero, suc, ap, ◌≡◌, refl, arith, false, [], ◌∷◌, ok, subst, replicate}
use cubic_server.Protocol.Types.{Slot}
use cubic_server.Protocol.Slots.{same_item}
use cubic_server.Protocol.SlotLaws.{empty, stack, nothing, items}
use cubic_server.Containers.Slots.{Inventory, new_inventory, Place, in_hotbar, at, read}
use cubic_server.Containers.Stock.{Holds, Stocked}
use cubic_server.Containers.Click.{click}
use cubic_server.Containers.Drag.{on_click, swap_container}
use cubic_server.Containers.Conserve.{Conserves}
use cubic_server.Containers.Drops.{Counted}
use cubic_server.Containers.Shift.{Light, few, swap_container_full}
use cubic_server.Containers.OnClick.{on_click-Conserves}
use cubic_server.Containers.Limits.{with_cursor, right_click_duplicates}

-- Ten of item 5 and one of item 7 lie in the hotbar.
abbrev stocked : Inventory
stocked = record new_inventory { hotbar = items 5 10 ∷ items 7 1 ∷ replicate 7 nothing }

empties-Holds : (n : ℕ) → Holds n (replicate n nothing)
empties-Holds zero = (tt, refl)
empties-Holds (suc n) = ((empty, (empties-Holds n).0), ap suc (empties-Holds n).1)

stocked-Stocked : Stocked stocked
stocked-Stocked = (
  empty,
  empty,
  empties-Holds 5,
  empties-Holds 4,
  empties-Holds 27,
  (
    (
      stack (λ e. absurd (omega arith)) (omega arith),
      (stack (λ e. absurd (omega arith)) (omega arith), (empties-Holds 7).0),
    ),
    refl,
  ),
)

first_slot : at 36 ≡ ok (in_hotbar 0)
unfolding at
first_slot = refl

only_first : (P : Slot → Type 0) (p : Place) → P (items 5 10) → at 36 ≡ ok p → P (read stocked p)
unfolding read
only_first P p h e =
    let same : in_hotbar 0 ≡ p = cc first_slot in subst (λ (q : Place). P (read stocked q)) same h

second_slot : at 37 ≡ ok (in_hotbar 1)
unfolding at
second_slot = refl

on_click-Conserves_example : Conserves 5 stocked (on_click stocked false 36 0 1 [])
on_click-Conserves_example =
    on_click-Conserves 5 stocked false 36 0 1 [] stocked-Stocked (λ e. absurd (omega arith))
      (λ e. absurd (omega arith)) (λ e. absurd (omega arith)) (λ e. absurd (omega arith)) (λ e. cc)
      (λ p e. only_first Counted p (λ _. omega arith) e)
      (λ p e _. only_first Light p (few (λ z. absurd (omega arith)) (omega arith)) e)

second_item : read (with_cursor stocked nothing) (in_hotbar 1) ≡ items 7 1
unfolding read
second_item = refl

right_click_duplicates_example :
    let first = click (with_cursor stocked nothing) 37 1 in
    let second = click first.inventory 64537 1 in
    (second.dropped ≡ items 7 1 ∷ [])
    × (read second.inventory (in_hotbar 1) ≡ items 7 1)
    × (second.inventory.cursor ≡ items 7 255)
right_click_duplicates_example =
    right_click_duplicates stocked 7 37 (in_hotbar 1) second_slot (λ e. absurd (omega arith)) refl
      second_item

other_item : same_item (items 7 3) (items 5 64) ≡ false
unfolding same_item
other_item = refl

swap_container_full_example :
    swap_container (items 5 64) (items 7 3 ∷ items 5 64 ∷ [])
    ≡ (items 7 3 ∷ items 5 128 ∷ [], nothing)
swap_container_full_example = swap_container_full 5 (items 7 3 ∷ []) [] (other_item, tt)
