-- ===== src/Containers/ShiftClick.antt =====
-- cubic-server/protocol/container/Inventory.cpp: a shift click in the inventory.
use cubic_server.Common.{
  ℕ, ◌-◌, ◌^◌, ◌≡◌, refl, ap, ◌∙◌, subst, arith, Bool, true, false, ◌&&◌, List, ltb, leb, ◌==◌, ok,
}
use cubic_server.Protocol.Types.{Slot}
use cubic_server.Protocol.SlotLaws.{amount}
use cubic_server.Containers.Slots.{
  Inventory, Place, in_cursor, in_crafting_grid, in_armor, in_player_inventory, in_hotbar, at, read,
  write,
}
use cubic_server.Containers.Stock.{
  Inside, sum_all-write, Stocked, write-Stocked, at-Inside, Yields, Yields-if, array_at-Yields,
}
use cubic_server.Containers.Click.{done}
use cubic_server.Containers.Drag.{swap_container, shift_click}
use cubic_server.Containers.Shift.{Light, Moved, swap_container-Moved}
use cubic_server.Containers.Conserve.{Conserves, with_slot-Conserves, if-Conserves}

-- In the hotbar, or not.
abbrev in_the_hotbar : Place → Bool
in_the_hotbar (in_hotbar i) = true
in_the_hotbar _ = false

abbrev in_the_inventory : Place → Bool
in_the_inventory (in_player_inventory i) = true
in_the_inventory _ = false

abbrev main_slot : ℕ → Bool
main_slot index = leb 9 index && ltb index 36

not_main : (index : ℕ) → main_slot index ≡ true → ltb index 36 ≡ false → ⊥
not_main index h e = ground arith

is_main : (index : ℕ) → main_slot index ≡ false → ltb index 9 ≡ false → ltb index 36 ≡ true → ⊥
is_main index h e f = ground arith

main-Yields :
    (index : ℕ) → main_slot index ≡ true → Yields (λ p. in_the_hotbar p ≡ false) (at index)
unfolding at
main-Yields index h =
    Yields-if P (index == 0xffff) _ _ (λ _. refl)
      (λ _.
        Yields-if P (leb (2 ^ 15) index) _ _ (λ _. tt)
          (λ _.
            Yields-if P (ltb index 5) _ _
              (λ _. array_at-Yields P 5 in_crafting_grid index (λ _. refl))
              (λ _.
                Yields-if P (ltb index 9) _ _
                  (λ _. array_at-Yields P 4 in_armor (index - 5) (λ _. refl))
                  (λ _.
                    Yields-if P (ltb index 36) _ _
                      (λ _. array_at-Yields P 27 in_player_inventory (index - 9) (λ _. refl))
                      (λ e. absurd (not_main index h e))))))
  where
    P : Place → Type 0
    P p = in_the_hotbar p ≡ false

other-Yields :
    (index : ℕ) → main_slot index ≡ false → Yields (λ p. in_the_inventory p ≡ false) (at index)
unfolding at
other-Yields index h =
    Yields-if P (index == 0xffff) _ _ (λ _. refl)
      (λ _.
        Yields-if P (leb (2 ^ 15) index) _ _ (λ _. tt)
          (λ _.
            Yields-if P (ltb index 5) _ _
              (λ _. array_at-Yields P 5 in_crafting_grid index (λ _. refl))
              (λ _.
                Yields-if P (ltb index 9) _ _
                  (λ _. array_at-Yields P 4 in_armor (index - 5) (λ _. refl))
                  (λ e.
                    Yields-if P (ltb index 36) _ _ (λ f. absurd (is_main index h e f))
                      (λ _.
                        Yields-if P (ltb index 45) _ _
                          (λ _. array_at-Yields P 9 in_hotbar (index - 36) (λ _. refl))
                          (λ _. Yields-if P (index == 45) _ _ (λ _. refl) (λ _. tt)))))))
  where
    P : Place → Type 0
    P p = in_the_inventory p ≡ false

read_hotbar :
    (inv : Inventory) (slots : List Slot) (q : Place)
    → in_the_hotbar q ≡ false
    → read (record inv { hotbar = slots }) q ≡ read inv q
unfolding read
read_hotbar inv slots (in_hotbar j) e = cc
read_hotbar inv slots _ e = refl

read_inventory :
    (inv : Inventory) (slots : List Slot) (q : Place)
    → in_the_inventory q ≡ false
    → read (record inv { player_inventory = slots }) q ≡ read inv q
unfolding read
read_inventory inv slots (in_player_inventory j) e = cc
read_inventory inv slots _ e = refl

hotbar_Inside :
    (inv : Inventory) (slots : List Slot) (q : Place)
    → Inside inv q
    → in_the_hotbar q ≡ false
    → Inside (record inv { hotbar = slots }) q
hotbar_Inside inv slots (in_hotbar j) h e = cc
hotbar_Inside inv slots in_cursor h e = h
hotbar_Inside inv slots _ h e = h

inventory_Inside :
    (inv : Inventory) (slots : List Slot) (q : Place)
    → Inside inv q
    → in_the_inventory q ≡ false
    → Inside (record inv { player_inventory = slots }) q
inventory_Inside inv slots (in_player_inventory j) h e = cc
inventory_Inside inv slots in_cursor h e = h
inventory_Inside inv slots _ h e = h

-- The hotbar is exchanged, and a slot outside it written.
hotbar-Conserves :
    (id : ℕ) (inv : Inventory) (p : Place) (r : List Slot × Slot)
    → Stocked inv
    → Inside inv p
    → in_the_hotbar p ≡ false
    → Moved id inv.hotbar (read inv p) r
    → Conserves id inv (done (write (record inv { hotbar = r.0 }) p r.1))
hotbar-Conserves id inv p (after, left) (c, o, g, a, m, b) i out (kept, all, size, f) =
    let w = record inv { hotbar = after } in
    (
      omega (
        arith,
        sum_all-write (amount id) w p left (hotbar_Inside inv after p i out),
        ap (amount id) (read_hotbar inv after p out),
        kept,
      ),
      write-Stocked w p left (c, o, g, a, m, (all, size ∙ b.1)) f,
    )

inventory-Conserves :
    (id : ℕ) (inv : Inventory) (p : Place) (r : List Slot × Slot)
    → Stocked inv
    → Inside inv p
    → in_the_inventory p ≡ false
    → Moved id inv.player_inventory (read inv p) r
    → Conserves id inv (done (write (record inv { player_inventory = r.0 }) p r.1))
inventory-Conserves id inv p (after, left) (c, o, g, a, m, b) i out (kept, all, size, f) =
    let w = record inv { player_inventory = after } in
    (
      omega (
        arith,
        sum_all-write (amount id) w p left (inventory_Inside inv after p i out),
        ap (amount id) (read_inventory inv after p out),
        kept,
      ),
      write-Stocked w p left (c, o, g, a, (all, size ∙ m.1), b) f,
    )

pub shift_click-Conserves :
    (id : ℕ) (inv : Inventory) (index : ℕ)
    → Stocked inv
    → ((p : Place) → at index ≡ ok p → Light (read inv p))
    → Conserves id inv (shift_click inv index)
unfolding shift_click
shift_click-Conserves id inv index h light = with_slot-Conserves id inv (at index) _ h (λ p e.
    if-Conserves id inv (main_slot index) _ _
      (λ main.
        hotbar-Conserves id inv p (swap_container (read inv p) inv.hotbar) h
          (at-Inside inv index p h e)
          (subst (Yields (λ q. in_the_hotbar q ≡ false)) e (main-Yields index main))
          (swap_container-Moved id (read inv p) inv.hotbar (light p e) h.5.0))
      (λ other.
        inventory-Conserves id inv p (swap_container (read inv p) inv.player_inventory) h
          (at-Inside inv index p h e)
          (subst (Yields (λ q. in_the_inventory q ≡ false)) e (other-Yields index other))
          (swap_container-Moved id (read inv p) inv.player_inventory (light p e) h.4.0)))
