-- ===== src/Containers/OnClick.antt =====
-- cubic-server/protocol/container/Container.cpp, Inventory.cpp: which calls of onClick keep the items.
use cubic_server.Common.{ℕ, ◌≡◌, ◌≢◌, Bool, List, ◌==◌, ==_iff, ok}
use cubic_server.Packets.Items.{SlotWithIndex}
use cubic_server.Containers.Slots.{Inventory, Place, at, read}
use cubic_server.Containers.Stock.{Stocked, at-Inside}
use cubic_server.Containers.Click.{drop_button}
use cubic_server.Containers.Drag.{on_click}
use cubic_server.Containers.Shift.{Light}
use cubic_server.Containers.Conserve.{Conserves, same-Conserves, with_slot-Conserves, if-Conserves}
use cubic_server.Containers.Drops.{Counted, drop_slot-Conserves, click-Conserves}
use cubic_server.Containers.Keys.{keys-Conserves}
use cubic_server.Containers.ShiftClick.{shift_click-Conserves}

drop_button-Conserves :
    (id : ℕ) (inv : Inventory) (index button : ℕ)
    → Stocked inv
    → ((p : Place) → at index ≡ ok p → Counted (read inv p))
    → Conserves id inv (drop_button inv index button)
unfolding drop_button
drop_button-Conserves id inv index button h n =
    if-Conserves id inv inv.cursor.present _ _ (λ _. same-Conserves id inv h)
      (λ _.
        with_slot-Conserves id inv (at index) _ h
          (λ p e. drop_slot-Conserves id inv button p h (at-Inside inv index p h e) (n p e)))

-- Where every slot of an inventory is empty or holds up to 64 of an item: a click in any mode
-- but middle click, drag and double click, at an index other than -1, leaves such an inventory,
-- and the items of every id that it holds then and the dropped ones are those that it held
-- before. The cursor and the slot must not hold zero of an item, and a shift click is of a slot
-- with at most 63.
pub on_click-Conserves :
    (id : ℕ) (inv : Inventory) (is_creative : Bool) (index button mode : ℕ)
    (updates : List SlotWithIndex)
    → Stocked inv
    → index ≢ 0xffff
    → mode ≢ 3
    → mode ≢ 5
    → mode ≢ 6
    → Counted inv.cursor
    → ((p : Place) → at index ≡ ok p → Counted (read inv p))
    → ((p : Place) → at index ≡ ok p → mode ≡ 1 → Light (read inv p))
    → Conserves id inv (on_click inv is_creative index button mode updates)
unfolding on_click
on_click-Conserves id inv is_creative index button mode updates h ne no_middle no_drag no_double n
      counted light =
    if-Conserves id inv (mode == 1) _ _
      (λ e. shift_click-Conserves id inv index h (λ p f. light p f ((==_iff mode 1).0 e)))
      (λ _.
        if-Conserves id inv (mode == 2) _ _ (λ _. keys-Conserves id inv index button h)
          (λ _.
            if-Conserves id inv (mode == 0) _ _ (λ _. click-Conserves id inv index button h ne n)
              (λ _.
                if-Conserves id inv (mode == 3) _ _ (λ e. absurd (no_middle ((==_iff mode 3).0 e)))
                  (λ _.
                    if-Conserves id inv (mode == 4) _ _
                      (λ _. drop_button-Conserves id inv index button h counted)
                      (λ _.
                        if-Conserves id inv (mode == 5) _ _
                          (λ e. absurd (no_drag ((==_iff mode 5).0 e)))
                          (λ _.
                            if-Conserves id inv (mode == 6) _ _
                              (λ e. absurd (no_double ((==_iff mode 6).0 e)))
                              (λ _. same-Conserves id inv h)))))))
