-- ===== src/Protocol/Slots.antt =====
-- cubic-server/protocol/Structures.hpp: moving items between two slots. A function of `*this` and
-- `other` returns both.
use cubic_server.Common.{
  ℕ, ◌+◌, ◌-◌, ◌%◌, Bool, true, false, not, ◌&&◌, if◌then◌else◌, ltb, leb, ◌==◌,
}
use cubic_server.Protocol.Types.{Slot}

-- Comparisons of an int8_t, given as its bit pattern, are made 256 higher.
abbrev pub raised : ℕ → ℕ
raised c = if ltb c 128 then c + 256 else c

unfoldable pub reset : Slot → Slot
reset s = record { present = false; item_id = 0; item_count = 0 }

-- `operator==` of two slots, which leaves the counts aside.
unfoldable pub same_item : Slot → Slot → Bool
same_item a b = (if a.present then b.present else not b.present) && (a.item_id == b.item_id)

-- `rest = this->itemCount + other.itemCount - 64`, where `rest > 0`.
abbrev rest_count : ℕ → ℕ → ℕ
rest_count a b = (raised a + raised b - 576) % 256

unfoldable pub swap : Slot → Slot → Slot × Slot
swap this other =
    if (this.item_id == other.item_id) && not (this.item_id == 0)
    then (if ltb 576 (raised this.item_count + raised other.item_count)
        then (
          record this { item_count = 64 },
          record other { item_count = rest_count this.item_count other.item_count },
        )
        else (record this { item_count = (this.item_count + other.item_count) % 256 }, reset other))
    else (other, this)

-- The part of `swap(other, x)` that moves x items: `other` gets them, what is above 64 goes back.
abbrev pub give_back : Slot → Slot → Slot × Slot
give_back this other =
    if ltb 320 (raised other.item_count)
    then (
      record this { item_count = (this.item_count + other.item_count + 192) % 256 },
      record other { item_count = 64 },
    )
    else (this, other)

unfoldable pub swap_count : Slot → Slot → ℕ → Slot × Slot
swap_count this other x =
    if this.present && other.present && not (this.item_id == other.item_id)
    then swap this other
    else if leb (raised this.item_count) (raised x)
    then swap this other
    else give_back (record this { item_count = (this.item_count + (256 - x)) % 256 })
        (record {
          present = true;
          item_id = this.item_id;
          item_count = (other.item_count + x) % 256;
        })
