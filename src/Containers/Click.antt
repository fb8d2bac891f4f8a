-- ===== src/Containers/Click.antt =====
-- cubic-server/protocol/container/Container.cpp, Inventory.cpp: onClick. It leaves an inventory, the
-- slots whose items it dropped into the world, and the exception, if it threw one. An int8_t and an
-- int16_t are bit patterns.
use cubic_server.Common.{
  ℕ, ◌+◌, ◌-◌, ◌/◌, ◌%◌, Bool, true, false, not, Option, none, some, List, [], ◌∷◌, if◌then◌else◌,
  ltb, leb, ◌==◌, Exception, Result, ok, err,
}
use cubic_server.Protocol.Types.{Slot}
use cubic_server.Protocol.Slots.{raised, reset, swap, swap_count}
use cubic_server.Containers.Slots.{
  Inventory, Place, in_cursor, in_offhand, in_hotbar, array_at, at, read, write,
}

pub record Clicked : Type 0 where
  pub inventory : Inventory
  pub dropped : List Slot
  pub thrown : Option Exception

abbrev pub done : Inventory → Clicked
done inv = record { inventory = inv; dropped = []; thrown = none }

abbrev pub dropping : Slot → Inventory → Clicked
dropping s inv = record { inventory = inv; dropped = s ∷ []; thrown = none }

abbrev pub failed : Inventory → Exception → Clicked
failed inv e = record { inventory = inv; dropped = []; thrown = some e }

-- What is done to the slot of an index: nothing, if `at` throws.
abbrev pub with_slot : Inventory → Result Place → (Place → Clicked) → Clicked
with_slot inv (ok p) go = go p
with_slot inv (err e) go = failed inv e

-- A swap of two references, which may be to one slot: its `other` is written last.
abbrev pub swap_places : Inventory → Place → Place → Slot × Slot → Inventory
swap_places inv p q (a, b) = write (write inv p a) q b

-- `s.swap(s, x)`
unfoldable pub swap_count_self : Slot → ℕ → Slot
swap_count_self s x = if leb (raised s.item_count) (raised x) then (swap s s).1 else record {
  present = true;
  item_id = s.item_id;
  item_count = (if ltb 320 (raised s.item_count) then 64 else s.item_count);
}

abbrev pub place_in_cursor : Place → Bool
place_in_cursor in_cursor = true
place_in_cursor _ = false

abbrev pub one_of : Slot → Slot
one_of s = record { present = true; item_id = s.item_id; item_count = 1 }

-- `itemCount--`, and reset at 0.
abbrev pub take_one : Slot → Slot
take_one s =
    let count = (s.item_count + 255) % 256 in
    if count == 0 then reset s else record s { item_count = count }

-- A click outside the window.
unfoldable pub click_outside : Inventory → ℕ → Clicked
unfolding reset
click_outside inv button =
    if not inv.cursor.present
    then done inv
    else if button == 0
    then dropping inv.cursor (record inv { cursor = reset inv.cursor })
    else dropping (one_of inv.cursor) (record inv { cursor = take_one inv.cursor })

-- `itemCount / 2` of an int8_t, rounded towards 0.
abbrev pub half : ℕ → ℕ
half c = if ltb c 128 then c / 2 else (256 - (256 - c) / 2) % 256

unfoldable pub click_slot : Inventory → ℕ → Place → Inventory
unfolding swap_count_self
click_slot inv button p =
    let s = read inv p in
    if button == 0
    then swap_places inv p in_cursor (swap s inv.cursor)
    else if place_in_cursor p
    then record inv { cursor = swap_count_self s (if not s.present then half s.item_count else 1) }
    else if not inv.cursor.present
    then swap_places inv p in_cursor (swap_count s inv.cursor (half s.item_count))
    else swap_places inv in_cursor p (swap_count inv.cursor s 1)

unfoldable pub click : Inventory → ℕ → ℕ → Clicked
unfolding click_outside click_slot
click inv index button =
    if index == 64537
    then click_outside inv button
    else with_slot inv (at index) (λ p. done (click_slot inv button p))

unfoldable pub middle_click : Inventory → Bool → ℕ → Clicked
middle_click inv is_creative index = with_slot inv (at index) (λ p.
    if not is_creative
    then done inv
    else done (record inv { cursor = record (read inv p) { item_count = 64 } }))

unfoldable pub drop_slot : Inventory → ℕ → Place → Clicked
unfolding reset
drop_slot inv button p =
    let s = read inv p in
    if not s.present
    then done inv
    else if button == 0
    then dropping (one_of s) (write inv p (take_one s))
    else dropping s (write inv p (reset s))

unfoldable pub drop_button : Inventory → ℕ → ℕ → Clicked
unfolding drop_slot
drop_button inv index button =
    if inv.cursor.present then done inv else with_slot inv (at index) (drop_slot inv button)

unfoldable pub keys : Inventory → ℕ → ℕ → Clicked
keys inv index button =
    with_slot inv (if button == 40 then ok in_offhand else array_at 9 in_hotbar button)
      (λ q. with_slot inv (at index) (λ p. done (swap_places inv q p (read inv p, read inv q))))

-- `close`: what the cursor holds is dropped.
unfoldable pub close : Inventory → Clicked
unfolding reset
close inv =
    if inv.cursor.present
    then dropping inv.cursor (record inv { cursor = reset inv.cursor })
    else done inv
