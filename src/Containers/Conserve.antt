-- ===== src/Containers/Conserve.antt =====
-- cubic-server/protocol/container: clicks, keys and drops make and lose no items.
use cubic_server.Common.{
  ℕ, ◌+◌, ◌<◌, ◌≡◌, refl, ap, arith, Bool, true, false, not, if◌then◌else◌, ◌==◌, Result, ok, err,
  lt→ltb,
}
use cubic_server.Protocol.Types.{Slot}
use cubic_server.Protocol.Slots.{swap, swap_count}
use cubic_server.Protocol.SlotLaws.{Filled, empty, stack, amount, Kept, swap-Kept}
use cubic_server.Protocol.SwapCount.{swap_count-Kept}
use cubic_server.Containers.Slots.{
  Inventory, Place, in_cursor, in_offhand, in_crafting_grid, in_armor, in_player_inventory,
  in_hotbar, read, write,
}
use cubic_server.Containers.Stock.{
  sum_of, total, Inside, sum_all-write, Stocked, write-Stocked, read-Filled,
}
use cubic_server.Containers.Click.{
  Clicked, done, with_slot, swap_places, place_in_cursor, half, click_slot,
}

-- The items that were dropped and those that are left are the items that were there.
abbrev pub Conserves : ℕ → Inventory → Clicked → Type 0
Conserves id inv c =
    (total id c.inventory + sum_of (amount id) c.dropped ≡ total id inv) × Stocked c.inventory

module _ (id : ℕ) (inv : Inventory) where
  -- What is left alone conserves.
  pub same-Conserves : Stocked inv → Conserves id inv (done inv)
  same-Conserves h = (omega arith, h)

  pub with_slot-Conserves :
      (r : Result Place) (go : Place → Clicked)
      → Stocked inv
      → ((p : Place) → r ≡ ok p → Conserves id inv (go p))
      → Conserves id inv (with_slot inv r go)
  with_slot-Conserves (ok p) go h k = k p refl
  with_slot-Conserves (err e) go h k = (omega arith, h)

  pub if-Conserves :
      (b : Bool) (c d : Clicked)
      → (b ≡ true → Conserves id inv c)
      → (b ≡ false → Conserves id inv d)
      → Conserves id inv (if b then c else d)
  if-Conserves true c d h k = h refl
  if-Conserves false c d h k = k refl

  -- Two slots, at places that do not meet, are exchanged for two with the same items.
  swap_places-Conserves :
      (p q : Place) (r : Slot × Slot)
      → Stocked inv
      → Inside inv p
      → Inside (write inv p r.0) q
      → read (write inv p r.0) q ≡ read inv q
      → Kept id (read inv p) (read inv q) r
      → Conserves id inv (done (swap_places inv p q r))
  swap_places-Conserves p q (a, b) h i j apart (kept, f, g) = (
    omega (
      arith,
      sum_all-write (amount id) inv p a i,
      sum_all-write (amount id) (write inv p a) q b j,
      ap (amount id) apart,
      kept,
    ),
    write-Stocked (write inv p a) q b (write-Stocked inv p a h f) g,
  )

cursor_apart :
    (inv : Inventory) (p : Place) (s : Slot)
    → place_in_cursor p ≡ false
    → read (write inv p s) in_cursor ≡ read inv in_cursor
unfolding read write
cursor_apart inv in_cursor s e = cc
cursor_apart inv _ s e = refl

slot_apart :
    (inv : Inventory) (p : Place) (s : Slot)
    → place_in_cursor p ≡ false
    → read (write inv in_cursor s) p ≡ read inv p
unfolding read write
slot_apart inv in_cursor s e = cc
slot_apart inv _ s e = refl

slot_Inside :
    (inv : Inventory) (p : Place) (s : Slot) → Inside inv p → Inside (write inv in_cursor s) p
unfolding write
slot_Inside inv in_cursor s h = tt
slot_Inside inv in_offhand s h = tt
slot_Inside inv (in_crafting_grid i) s h = h
slot_Inside inv (in_armor i) s h = h
slot_Inside inv (in_player_inventory i) s h = h
slot_Inside inv (in_hotbar i) s h = h

read-cursor : (inv : Inventory) → read inv in_cursor ≡ inv.cursor
unfolding read
read-cursor inv = refl

if-inventory :
    (id : ℕ) (inv : Inventory) (b : Bool) (x y : Inventory)
    → (b ≡ true → Conserves id inv (done x))
    → (b ≡ false → Conserves id inv (done y))
    → Conserves id inv (done (if b then x else y))
if-inventory id inv true x y h k = h refl
if-inventory id inv false x y h k = k refl

half_small : (s : Slot) → Filled s → half s.item_count < 128
half_small s empty = omega arith
half_small s (stack {count = c} ne h) = rw (lt→ltb c 128 (omega arith)) (omega arith)

pub click_slot-Conserves :
    (id : ℕ) (inv : Inventory) (button : ℕ) (p : Place)
    → Stocked inv
    → Inside inv p
    → place_in_cursor p ≡ false
    → Conserves id inv (done (click_slot inv button p))
unfolding click_slot read
click_slot-Conserves id inv button p h i other =
    if-inventory id inv (button == 0) _ _
      (λ _. to_cursor (swap s inv.cursor) (swap-Kept id s inv.cursor f h.0))
      (λ _.
        if-inventory id inv (place_in_cursor p) _ _ (λ e. cc)
          (λ _.
            if-inventory id inv (not inv.cursor.present) _ _
              (λ _.
                to_cursor (swap_count s inv.cursor (half s.item_count))
                  (swap_count-Kept id s inv.cursor (half s.item_count) f h.0 (half_small s f)))
              (λ _.
                swap_places-Conserves id inv in_cursor p (swap_count inv.cursor s 1) h tt
                  (slot_Inside inv p _ i) (slot_apart inv p _ other)
                  (swap_count-Kept id inv.cursor s 1 h.0 f (omega arith)))))
  where
    s : Slot
    s = read inv p

    f : Filled s
    f = read-Filled inv p h i

    to_cursor :
        (r : Slot × Slot)
        → Kept id s inv.cursor r
        → Conserves id inv (done (swap_places inv p in_cursor r))
    to_cursor r k =
        swap_places-Conserves id inv p in_cursor r h i tt (cursor_apart inv p r.0 other) k
