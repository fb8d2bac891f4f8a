-- ===== src/Containers/Drag.antt =====
-- cubic-server/protocol/container/Container.cpp, Inventory.cpp: the clicks that go over several slots,
-- and onClick as a whole.
use cubic_server.Common.{
  ℕ, zero, suc, ◌+◌, ◌-◌, ◌/◌, ◌%◌, ◌^◌, Bool, true, false, not, ◌&&◌, ◌||◌, Option, none, some,
  List, [], ◌∷◌, length, if◌then◌else◌, ltb, leb, ◌==◌, Exception, ok, err, undefined,
}
use cubic_server.Protocol.Types.{Slot}
use cubic_server.Protocol.Slots.{raised, reset, same_item}
use cubic_server.Packets.Items.{SlotWithIndex}
use cubic_server.Containers.Slots.{
  State, normal, left_drag, right_drag, middle_drag, Inventory, Place, at, read, write, size,
}
use cubic_server.Containers.Click.{
  Clicked, done, failed, with_slot, click, middle_click, drop_button, keys,
}

-- `updates.size()` is a size_t, so an int8_t is taken to 64 bits.
abbrev pub widened : ℕ → ℕ
widened c = if ltb c 128 then c else 2 ^ 64 - (256 - c)

-- The loop over the slots of a left drag: the inventory, `rest` and `addedStack`.
pub record Dealt : Type 0 where
  pub dealt : Inventory
  pub rest : ℕ
  pub added_stack : ℕ

-- One slot of the loop.
unfoldable pub deal_one : Dealt → Place → Dealt
deal_one d p =
    let inv = d.dealt in
    let s = read inv p in
    let count = (s.item_count + d.added_stack) % 256 in
    if not s.present
    then record d { dealt = write inv p (record inv.cursor { item_count = d.added_stack % 256 }) }
    else if not (s.item_id == inv.cursor.item_id) || not (ltb (raised s.item_count) 320)
    then d
    else if ltb 320 (raised count)
    then record d {
      dealt = write inv p (record s { item_count = 64 });
      rest = (d.rest + (count - 64)) % 2 ^ 16;
    }
    else record d { dealt = write inv p (record s { item_count = count }); added_stack = 0 }

unfoldable pub deal : List SlotWithIndex → Dealt → Dealt × Option Exception
unfolding deal_one
deal [] d = (d, none)
deal (update ∷ updates) d = elim (at update.slot_number) [
  | err e ↦ (d, some e)
  | ok p ↦ deal updates (deal_one d p)
]

-- The cursor gets the rest, an int16_t, if that is positive.
abbrev pub with_rest : Dealt → Inventory
with_rest d =
    let inv = d.dealt in
    if ltb 0 d.rest && ltb d.rest (2 ^ 15)
    then record inv { cursor = record inv.cursor { item_count = d.rest % 256 }; state = normal }
    else record inv { cursor = reset inv.cursor; state = normal }

abbrev pub ended : Dealt × Option Exception → Clicked
ended (d, some e) = failed d.dealt e
ended (d, none) = done (with_rest d)

-- The end of a left drag. A division by no updates has no meaning.
unfoldable pub end_left_drag : Inventory → List SlotWithIndex → Clicked
unfolding deal reset
end_left_drag inv [] = failed inv undefined
end_left_drag inv (update ∷ updates) =
    let n = length (update ∷ updates) in
    ended (
      deal (update ∷ updates) (record {
        dealt = inv;
        rest = widened inv.cursor.item_count % n % 2 ^ 16;
        added_stack = widened inv.cursor.item_count / n % 2 ^ 16;
      }))

abbrev pub is_normal : State → Bool
is_normal normal = true
is_normal _ = false

abbrev pub is_left_drag : State → Bool
is_left_drag left_drag = true
is_left_drag _ = false

-- The start of a drag, with something in the cursor.
abbrev pub start_drag : Inventory → State → Clicked
start_drag inv to = if not inv.cursor.present then done inv else done (record inv { state = to })

unfoldable pub drag : Inventory → Bool → ℕ → ℕ → List SlotWithIndex → Clicked
unfolding end_left_drag
drag inv is_creative index button updates =
    if (button == 0) && (index == 64537) && is_normal inv.state
    then start_drag inv left_drag
    else if (button == 4) && (index == 64537) && is_normal inv.state
    then start_drag inv right_drag
    else if (button == 8) && (index == 64537) && is_normal inv.state && is_creative
    then start_drag inv middle_drag
    else if (button == 1) && is_left_drag inv.state
    then done inv
    else if (button == 2) && (index == 64537) && is_left_drag inv.state
    then end_left_drag inv updates
    else done (record inv { state = normal })

-- One slot of the loop of a double click.
unfoldable pub collect_one : Inventory → Place → Inventory
unfolding reset
collect_one inv p =
    let s = read inv p in
    let count = (inv.cursor.item_count + s.item_count) % 256 in
    if not (same_item inv.cursor s)
    then inv
    else if ltb 320 (raised count)
    then write (record inv { cursor = record inv.cursor { item_count = 64 } }) p
        (record s { item_count = (count - 64) % 256 })
    else write (record inv { cursor = record inv.cursor { item_count = count } }) p (reset s)

-- `for (i = 0; i < size(); i++)`, with `left` rounds to go.
unfoldable pub collect : ℕ → ℕ → Inventory → Clicked
unfolding collect_one
collect zero i inv = done inv
collect (suc left) i inv = elim (at i) [
  | err e ↦ failed inv e
  | ok p ↦ collect left (i + 1) (collect_one inv p)
]

unfoldable pub double_click : Inventory → ℕ → Clicked
unfolding collect
double_click inv index = with_slot inv (at index) (λ p.
    if (read inv p).present || (inv.cursor.item_count == 64) || not inv.cursor.present
    then done inv
    else collect size 0 inv)

-- The first loop of `swapContainer`: the array that it leaves and the slot, and whether it returned.
unfoldable pub join_stacks : List Slot → Slot → List Slot × Slot × Bool
unfolding reset
join_stacks [] slot = ([], slot, false)
join_stacks (s ∷ container) slot =
    let count = (s.item_count + slot.item_count) % 256 in
    if not (same_item s slot)
    then (let (rest, left, returned) = join_stacks container slot in (s ∷ rest, left, returned))
    else if not (ltb 320 (raised count))
    then (record s { item_count = count } ∷ container, reset slot, true)
    else (let (rest, left, returned) =
          join_stacks container (record slot { item_count = (count - 64) % 256 }) in
        (record s { item_count = 64 } ∷ rest, left, returned))

-- The second loop.
unfoldable pub first_free : List Slot → Slot → List Slot × Slot
unfolding reset
first_free [] slot = ([], slot)
first_free (s ∷ container) slot =
    if not s.present
    then (slot ∷ container, reset slot)
    else (let (rest, left) = first_free container slot in (s ∷ rest, left))

unfoldable pub swap_container : Slot → List Slot → List Slot × Slot
unfolding join_stacks first_free
swap_container slot container =
    let (joined, left, returned) = join_stacks container slot in
    if returned then (joined, left) else first_free joined left

unfoldable pub shift_click : Inventory → ℕ → Clicked
unfolding swap_container
shift_click inv index = with_slot inv (at index) (λ p.
    if leb 9 index && ltb index 36
    then (let (hotbar, left) = swap_container (read inv p) inv.hotbar in
        done (write (record inv { hotbar = hotbar }) p left))
    else (let (slots, left) = swap_container (read inv p) inv.player_inventory in
        done (write (record inv { player_inventory = slots }) p left)))

-- `Inventory::onClick`, with `Container::onClick` for the other modes.
unfoldable pub on_click : Inventory → Bool → ℕ → ℕ → ℕ → List SlotWithIndex → Clicked
unfolding click middle_click drop_button keys drag double_click shift_click
on_click inv is_creative index button mode updates =
    if mode == 1
    then shift_click inv index
    else if mode == 2
    then keys inv index button
    else if mode == 0
    then click inv index button
    else if mode == 3
    then middle_click inv is_creative index
    else if mode == 4
    then drop_button inv index button
    else if mode == 5
    then drag inv is_creative index button updates
    else if mode == 6
    then double_click inv index
    else done inv
