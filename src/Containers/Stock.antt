-- ===== src/Containers/Stock.antt =====
-- cubic-server/protocol/container: the items of an inventory, slot by slot.
use cubic_server.Common.{
  ℕ, zero, suc, ◌+◌, ◌-◌, ◌^◌, ◌<◌, ◌≡◌, ◌≢◌, refl, ◌∙◌, arith, Bool, true, false, List, [], ◌∷◌,
  get_or, set, length, length-set, All, if◌then◌else◌, ltb, leb, ltb→lt, ◌==◌, Result, ok, err,
  out_of_range, subst, ne→==,
}
use cubic_server.Protocol.Types.{Slot}
use cubic_server.Protocol.SlotLaws.{Filled, amount}
use cubic_server.Containers.Click.{place_in_cursor}
use cubic_server.Containers.Slots.{
  Inventory, empty_slot, Place, in_cursor, in_offhand, in_crafting_grid, in_armor,
  in_player_inventory, in_hotbar, array_at, at, read, write,
}

-- A number of each slot, added up.
abbrev pub sum_of : (Slot → ℕ) → List Slot → ℕ
sum_of f [] = 0
sum_of f (s ∷ slots) = f s + sum_of f slots

sum_of-set :
    (f : Slot → ℕ) (slots : List Slot) (i : ℕ) (s d : Slot)
    → i < length slots
    → sum_of f (set slots i s) + f (get_or slots i d) ≡ sum_of f slots + f s
sum_of-set f [] i s d h = elim h [ ]
sum_of-set f (x ∷ slots) zero s d h = omega arith
sum_of-set f (x ∷ slots) (suc i) s d h = omega (arith, sum_of-set f slots i s d (omega arith))

abbrev pub sum_all : (Slot → ℕ) → Inventory → ℕ
sum_all f inv =
    f inv.cursor
    + f inv.offhand
    + sum_of f inv.crafting_grid
    + sum_of f inv.armor
    + sum_of f inv.player_inventory
    + sum_of f inv.hotbar

-- How many items of an id an inventory holds.
abbrev pub total : ℕ → Inventory → ℕ
total id = sum_all (amount id)

-- The place is one of the inventory's.
abbrev pub Inside : Inventory → Place → Type 0
Inside inv in_cursor = Unit {0}
Inside inv in_offhand = Unit {0}
Inside inv (in_crafting_grid i) = i < length inv.crafting_grid
Inside inv (in_armor i) = i < length inv.armor
Inside inv (in_player_inventory i) = i < length inv.player_inventory
Inside inv (in_hotbar i) = i < length inv.hotbar

-- A write changes a sum by the slot that is written.
pub sum_all-write :
    (f : Slot → ℕ) (inv : Inventory) (p : Place) (s : Slot)
    → Inside inv p
    → sum_all f (write inv p s) + f (read inv p) ≡ sum_all f inv + f s
unfolding read write
sum_all-write f inv in_cursor s h = omega arith
sum_all-write f inv in_offhand s h = omega arith
sum_all-write f inv (in_crafting_grid i) s h =
    omega (arith, sum_of-set f inv.crafting_grid i s empty_slot h)
sum_all-write f inv (in_armor i) s h = omega (arith, sum_of-set f inv.armor i s empty_slot h)
sum_all-write f inv (in_player_inventory i) s h =
    omega (arith, sum_of-set f inv.player_inventory i s empty_slot h)
sum_all-write f inv (in_hotbar i) s h = omega (arith, sum_of-set f inv.hotbar i s empty_slot h)

All-set :
    (P : Slot → Type 0) (slots : List Slot) (i : ℕ) (s : Slot)
    → All P slots
    → P s
    → All P (set slots i s)
All-set P [] i s h k = tt
All-set P (x ∷ slots) zero s h k = (k, h.1)
All-set P (x ∷ slots) (suc i) s h k = (h.0, All-set P slots i s h.1 k)

All-get_or :
    (P : Slot → Type 0) (slots : List Slot) (i : ℕ) (d : Slot)
    → All P slots
    → i < length slots
    → P (get_or slots i d)
All-get_or P [] i d h k = elim k [ ]
All-get_or P (x ∷ slots) zero d h k = h.0
All-get_or P (x ∷ slots) (suc i) d h k = All-get_or P slots i d h.1 (omega arith)

abbrev pub Holds : ℕ → List Slot → Type 0
Holds n slots = All Filled slots × (length slots ≡ n)

-- Every slot is empty or holds up to 64 of an item, and the arrays have their sizes.
abbrev pub Stocked : Inventory → Type 0
Stocked inv =
    Filled inv.cursor
    × Filled inv.offhand
    × Holds 5 inv.crafting_grid
    × Holds 4 inv.armor
    × Holds 27 inv.player_inventory
    × Holds 9 inv.hotbar

set-Holds :
    (n : ℕ) (slots : List Slot) (i : ℕ) (s : Slot)
    → Holds n slots
    → Filled s
    → Holds n (set slots i s)
set-Holds n slots i s (h, e) f = (All-set Filled slots i s h f, length-set slots i s ∙ e)

pub write-Stocked :
    (inv : Inventory) (p : Place) (s : Slot) → Stocked inv → Filled s → Stocked (write inv p s)
unfolding write
write-Stocked inv in_cursor s (c, o, g, a, m, b) f = (f, o, g, a, m, b)
write-Stocked inv in_offhand s (c, o, g, a, m, b) f = (c, f, g, a, m, b)
write-Stocked inv (in_crafting_grid i) s (c, o, g, a, m, b) f =
    (c, o, set-Holds 5 inv.crafting_grid i s g f, a, m, b)
write-Stocked inv (in_armor i) s (c, o, g, a, m, b) f =
    (c, o, g, set-Holds 4 inv.armor i s a f, m, b)
write-Stocked inv (in_player_inventory i) s (c, o, g, a, m, b) f =
    (c, o, g, a, set-Holds 27 inv.player_inventory i s m f, b)
write-Stocked inv (in_hotbar i) s (c, o, g, a, m, b) f =
    (c, o, g, a, m, set-Holds 9 inv.hotbar i s b f)

pub read-Filled : (inv : Inventory) (p : Place) → Stocked inv → Inside inv p → Filled (read inv p)
unfolding read
read-Filled inv in_cursor (c, o, g, a, m, b) k = c
read-Filled inv in_offhand (c, o, g, a, m, b) k = o
read-Filled inv (in_crafting_grid i) (c, o, g, a, m, b) k =
    All-get_or Filled inv.crafting_grid i empty_slot g.0 k
read-Filled inv (in_armor i) (c, o, g, a, m, b) k = All-get_or Filled inv.armor i empty_slot a.0 k
read-Filled inv (in_player_inventory i) (c, o, g, a, m, b) k =
    All-get_or Filled inv.player_inventory i empty_slot m.0 k
read-Filled inv (in_hotbar i) (c, o, g, a, m, b) k = All-get_or Filled inv.hotbar i empty_slot b.0 k

-- What a test of `at` has as its result, is there.
abbrev pub Yields : (Place → Type 0) → Result Place → Type 0
Yields P (ok p) = P p
Yields P (err e) = Unit {0}

pub Yields-if :
    (P : Place → Type 0) (b : Bool) (r s : Result Place)
    → (b ≡ true → Yields P r)
    → (b ≡ false → Yields P s)
    → Yields P (if b then r else s)
Yields-if P true r s h k = h refl
Yields-if P false r s h k = k refl

pub array_at-Yields :
    (P : Place → Type 0) (n : ℕ) (place : ℕ → Place) (i : ℕ)
    → (i < n → P (place i))
    → Yields P (array_at n place i)
array_at-Yields P n place i h =
    Yields-if P (ltb i n) (ok (place i)) (err out_of_range) (λ e. h (ltb→lt i n e)) (λ e. tt)

at-Yields : (inv : Inventory) (index : ℕ) → Stocked inv → Yields (Inside inv) (at index)
unfolding at
at-Yields inv index (c, o, g, a, m, b) =
    Yields-if (Inside inv) (index == 0xffff) _ _ (λ e. tt)
      (λ e.
        Yields-if (Inside inv) (leb (2 ^ 15) index) _ _ (λ e. tt)
          (λ e.
            Yields-if (Inside inv) (ltb index 5) _ _
              (λ e. array_at-Yields (Inside inv) 5 in_crafting_grid index (λ h. omega (arith, g.1)))
              (λ e.
                Yields-if (Inside inv) (ltb index 9) _ _
                  (λ e.
                    array_at-Yields (Inside inv) 4 in_armor (index - 5) (λ h. omega (arith, a.1)))
                  (λ e.
                    Yields-if (Inside inv) (ltb index 36) _ _
                      (λ e.
                        array_at-Yields (Inside inv) 27 in_player_inventory (index - 9)
                          (λ h. omega (arith, m.1)))
                      (λ e.
                        Yields-if (Inside inv) (ltb index 45) _ _
                          (λ e.
                            array_at-Yields (Inside inv) 9 in_hotbar (index - 36)
                              (λ h. omega (arith, b.1)))
                          (λ e. Yields-if (Inside inv) (index == 45) _ _ (λ e. tt) (λ e. tt)))))))

pub at-Inside :
    (inv : Inventory) (index : ℕ) (p : Place) → Stocked inv → at index ≡ ok p → Inside inv p
at-Inside inv index p h e = subst (Yields (Inside inv)) e (at-Yields inv index h)

array_at-other :
    (n : ℕ) (place : ℕ → Place) (i : ℕ)
    → (place_in_cursor (place i) ≡ false)
    → Yields (λ p. place_in_cursor p ≡ false) (array_at n place i)
array_at-other n place i h = array_at-Yields (λ p. place_in_cursor p ≡ false) n place i (λ _. h)

at-Other : (index : ℕ) → index ≢ 0xffff → Yields (λ p. place_in_cursor p ≡ false) (at index)
unfolding at
at-Other index ne = rw (ne→== index 0xffff ne) (
    Yields-if _ (leb (2 ^ 15) index) _ _ (λ e. tt)
      (λ e.
        Yields-if _ (ltb index 5) _ _ (λ e. array_at-other 5 in_crafting_grid index refl)
          (λ e.
            Yields-if _ (ltb index 9) _ _ (λ e. array_at-other 4 in_armor (index - 5) refl)
              (λ e.
                Yields-if _ (ltb index 36) _ _
                  (λ e. array_at-other 27 in_player_inventory (index - 9) refl)
                  (λ e.
                    Yields-if _ (ltb index 45) _ _
                      (λ e. array_at-other 9 in_hotbar (index - 36) refl)
                      (λ e. Yields-if _ (index == 45) _ _ (λ e. refl) (λ e. tt)))))))

-- Only -1 is the cursor.
pub at-other :
    (index : ℕ) (p : Place) → index ≢ 0xffff → at index ≡ ok p → place_in_cursor p ≡ false
at-other index p ne e = subst (Yields (λ p. place_in_cursor p ≡ false)) e (at-Other index ne)
