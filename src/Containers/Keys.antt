-- ===== src/Containers/Keys.antt =====
-- cubic-server/protocol/container/Inventory.cpp: a key exchanges a slot with the hotbar or the offhand.
use cubic_server.Common.{
  ℕ, zero, suc, ◌<◌, ◌≡◌, refl, ap, subst, arith, List, [], ◌∷◌, get_or, set, length-set,
  if◌then◌else◌, ◌==◌, Result, ok,
}
use cubic_server.Protocol.Types.{Slot}
use cubic_server.Protocol.SlotLaws.{amount}
use cubic_server.Containers.Slots.{
  Inventory, empty_slot, Place, in_cursor, in_offhand, in_hotbar, array_at, at, read, write,
}
use cubic_server.Containers.Stock.{
  Inside, sum_all-write, Stocked, write-Stocked, read-Filled, at-Inside, Yields, Yields-if,
  array_at-Yields,
}
use cubic_server.Containers.Click.{done, swap_places, keys}
use cubic_server.Containers.Conserve.{Conserves, with_slot-Conserves}

pub get_or-set_own :
    (slots : List Slot) (i j : ℕ) (d : Slot)
    → get_or (set slots i (get_or slots j d)) j d ≡ get_or slots j d
get_or-set_own [] i j d = refl
get_or-set_own (x ∷ slots) zero zero d = refl
get_or-set_own (x ∷ slots) zero (suc j) d = refl
get_or-set_own (x ∷ slots) (suc i) zero d = refl
get_or-set_own (x ∷ slots) (suc i) (suc j) d = get_or-set_own slots i j d

-- What a key exchanges a slot with: the offhand or a slot of the hotbar.
data Key : Place → Type 0 where
  offhand_key : Key in_offhand
  hotbar_key : (i : ℕ) → i < 9 → Key (in_hotbar i)

-- The slot that is copied elsewhere is still there.
read-write_own :
    (inv : Inventory) (q p : Place) → Key q → (read (write inv q (read inv p)) p ≡ read inv p)
unfolding read write
read-write_own inv _ in_offhand offhand_key = refl
read-write_own inv _ _ offhand_key = refl
read-write_own inv _ (in_hotbar j) (hotbar_key i h) = get_or-set_own inv.hotbar i j empty_slot
read-write_own inv _ _ (hotbar_key i h) = refl

write-Inside :
    (inv : Inventory) (q p : Place) (s : Slot) → Key q → Inside inv p → Inside (write inv q s) p
unfolding write
write-Inside inv _ in_cursor s offhand_key h = h
write-Inside inv _ _ s offhand_key h = h
write-Inside inv _ (in_hotbar j) s (hotbar_key i k) h = omega (arith, length-set inv.hotbar i s)
write-Inside inv _ _ s (hotbar_key i k) h = h

exchange-Conserves :
    (id : ℕ) (inv : Inventory) (q p : Place)
    → Stocked inv
    → Key q
    → Inside inv q
    → Inside inv p
    → Conserves id inv (done (swap_places inv q p (read inv p, read inv q)))
exchange-Conserves id inv q p h key i j =
    let w = write inv q (read inv p) in
    (
      omega (
        arith,
        sum_all-write (amount id) inv q (read inv p) i,
        sum_all-write (amount id) w p (read inv q) (write-Inside inv q p (read inv p) key j),
        ap (amount id) (read-write_own inv q p key),
      ),
      write-Stocked w p (read inv q) (write-Stocked inv q (read inv p) h (read-Filled inv p h j))
          (read-Filled inv q h i),
    )

Key-Inside : (inv : Inventory) (q : Place) → Stocked inv → Key q → Inside inv q
Key-Inside inv _ h offhand_key = tt
Key-Inside inv _ (c, o, g, a, m, b) (hotbar_key i k) = omega (arith, b.1)

Key-Yields :
    (button : ℕ) → Yields Key (if button == 40 then ok in_offhand else array_at 9 in_hotbar button)
Key-Yields button =
    Yields-if Key (button == 40) _ _ (λ _. offhand_key)
      (λ _. array_at-Yields Key 9 in_hotbar button (λ h. hotbar_key button h))

pub keys-Conserves :
    (id : ℕ) (inv : Inventory) (index button : ℕ)
    → Stocked inv
    → Conserves id inv (keys inv index button)
unfolding keys
keys-Conserves id inv index button h = with_slot-Conserves id inv key_place _ h (λ q e.
    with_slot-Conserves id inv (at index) _ h (λ p f.
      let key = subst (Yields Key) e (Key-Yields button) in
      exchange-Conserves id inv q p h key (Key-Inside inv q h key) (at-Inside inv index p h f)))
  where
    key_place : Result Place
    key_place = if button == 40 then ok in_offhand else array_at 9 in_hotbar button
