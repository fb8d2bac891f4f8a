-- ===== src/Containers/Limits.antt =====
-- cubic-server/protocol/container/Container.cpp: the clicks that make items, and lose them.
use cubic_server.Common.{ℕ, ◌≡◌, ◌≢◌, refl, ap, ◌∙◌, subst, false, [], ◌∷◌, eq→==, ne→==, ok}
use cubic_server.Protocol.Types.{Slot}
use cubic_server.Protocol.Slots.{reset, same_item, swap_count}
use cubic_server.Protocol.SlotLaws.{nothing, items}
use cubic_server.Containers.Keys.{get_or-set_own}
use cubic_server.Containers.Slots.{
  empty_slot, in_offhand, in_crafting_grid, in_armor, in_player_inventory, in_hotbar, Inventory,
  Place, in_cursor, at, read, write,
}
use cubic_server.Containers.Click.{
  Clicked, done, dropping, place_in_cursor, swap_places, half, click_slot, click,
}
use cubic_server.Containers.Drag.{collect_one}

abbrev pub with_cursor : Inventory → Slot → Inventory
with_cursor inv s = record inv { cursor = s }

half_of_one : (i : ℕ) → swap_count (items i 1) nothing (half 1) ≡ (items i 1, items i 0)
unfolding swap_count
half_of_one i = refl

-- A right click on one item, with an empty cursor.
click_slot_single :
    (inv : Inventory) (i : ℕ) (p : Place)
    → place_in_cursor p ≡ false
    → read (with_cursor inv nothing) p ≡ items i 1
    → click_slot (with_cursor inv nothing) 1 p
      ≡ with_cursor (write (with_cursor inv nothing) p (items i 1)) (items i 0)
unfolding click_slot write
click_slot_single inv i p other one =
    rw other (rw one (ap (swap_places (with_cursor inv nothing) p in_cursor) (half_of_one i)))

click_single :
    (inv : Inventory) (i index : ℕ) (p : Place)
    → at index ≡ ok p
    → index ≢ 64537
    → place_in_cursor p ≡ false
    → read (with_cursor inv nothing) p ≡ items i 1
    → click (with_cursor inv nothing) index 1
      ≡ done (with_cursor (write (with_cursor inv nothing) p (items i 1)) (items i 0))
unfolding click
click_single inv i index p e ne other one =
    rw (ne→== index 64537 ne, e) (ap done (click_slot_single inv i p other one))

drop_none :
    (inv : Inventory) (i : ℕ)
    → click (with_cursor inv (items i 0)) 64537 1
      ≡ dropping (items i 1) (with_cursor inv (items i 255))
unfolding click
drop_none inv i = refl

read-write_same :
    (inv : Inventory) (p : Place) (s : Slot)
    → place_in_cursor p ≡ false
    → read (with_cursor (write inv p (read inv p)) s) p ≡ read inv p
unfolding read write
read-write_same inv in_cursor s e = cc
read-write_same inv in_offhand s e = refl
read-write_same inv (in_crafting_grid i) s e = get_or-set_own inv.crafting_grid i i empty_slot
read-write_same inv (in_armor i) s e = get_or-set_own inv.armor i i empty_slot
read-write_same inv (in_player_inventory i) s e = get_or-set_own inv.player_inventory i i empty_slot
read-write_same inv (in_hotbar i) s e = get_or-set_own inv.hotbar i i empty_slot

-- With an empty cursor, a right click on a slot with one of an item and a right click outside
-- the window drop one of the item, and the slot still has it; the cursor then holds -1 of it.
pub right_click_duplicates :
    (inv : Inventory) (i index : ℕ) (p : Place)
    → at index ≡ ok p
    → index ≢ 64537
    → place_in_cursor p ≡ false
    → read (with_cursor inv nothing) p ≡ items i 1
    → let first = click (with_cursor inv nothing) index 1 in
      let second = click first.inventory 64537 1 in
      (second.dropped ≡ items i 1 ∷ [])
      × (read second.inventory p ≡ items i 1)
      × (second.inventory.cursor ≡ items i 255)
right_click_duplicates inv i index p e ne other one =
    let w = write (with_cursor inv nothing) p (items i 1) in
    let both =
      ap (λ (c : Clicked). click c.inventory 64537 1) (click_single inv i index p e ne other one)
      ∙ drop_none w i in
    (
      ap (λ (c : Clicked). c.dropped) both,
      ap (λ (c : Clicked). read c.inventory p) both
          ∙ subst
              (λ (t : Slot).
                read (with_cursor (write (with_cursor inv nothing) p t) (items i 255)) p ≡ t)
              one (read-write_same (with_cursor inv nothing) p (items i 255) other),
      ap (λ (c : Clicked). c.inventory.cursor) both,
    )

-- A full cursor that meets a full slot in the loop of a double click.
collect_one_full :
    (inv : Inventory) (i : ℕ) (p : Place)
    → read (with_cursor inv (items i 64)) p ≡ items i 64
    → collect_one (with_cursor inv (items i 64)) p ≡ write (with_cursor inv (items i 128)) p nothing
unfolding collect_one reset same_item
collect_one_full inv i p e = rw e (rw (eq→== i i refl) refl)
