-- ===== src/Nbt/Change.antt =====
-- cubic-server/nbt.hpp: the members that change a tag, and what the lookups of a compound find after
-- them.
use cubic_server.Common.{
  ℕ, suc, ◌≡◌, refl, ap, Bool-cases, inl, inr, Option, none, some, List, if◌then◌else◌,
}
use cubic_server.Nbt.Tag.{
  Tag, Tags, nil, cons, byte, short, int, long, float, double, string, list, compound, name_of,
  count_tags,
}
use Prim.Native.Nat.{bit_or}
use cubic_server.Nbt.Lookup.{same_name, get_value}

-- `_value.push_back` of a compound or a list.
unfoldable pub pushed : Tags → Tag → Tags
pushed nil t = cons t nil
pushed (cons u us) t = cons u (pushed us t)

-- addValue of a Compound and push_back of a List; the other classes have neither.
unfoldable pub add_value : Tag → Tag → Tag
add_value (compound n ts) t = compound n (pushed ts t)
add_value (list n ts) t = list n (pushed ts t)
add_value other t = other

-- setValue of the classes that hold a number; the others have no such member.
unfoldable pub set_number : Tag → ℕ → Tag
set_number (byte n v) w = byte n w
set_number (short n v) w = short n w
set_number (int n v) w = int n w
set_number (long n v) w = long n w
set_number (float n v) w = float n w
set_number (double n v) w = double n w
set_number other w = other

-- setValue of a String.
unfoldable pub set_text : Tag → List ℕ → Tag
set_text (string n v) w = string n w
set_text other w = other

-- `operator|=` of a Long.
unfoldable pub or_number : Tag → ℕ → Tag
or_number (long n v) w = long n (bit_or v w)
or_number other w = other

-- getValue of a tag that is a compound.
abbrev pub found_in : Tag → List ℕ → Option Tag
found_in (compound n ts) name = get_value ts name
found_in _ name = none

-- The first of two results that there is.
abbrev pub first_of : Option Tag → Option Tag → Option Tag
first_of none t = t
first_of (some t) u = some t

-- The size of a compound or a list.
abbrev pub values_of : Tag → ℕ
values_of (compound n ts) = count_tags ts
values_of (list n ts) = count_tags ts
values_of _ = 0

pushed-get_value :
    (ts : Tags) (t : Tag) (name : List ℕ)
    → get_value (pushed ts t) name
      ≡ first_of (get_value ts name) (if same_name (name_of t) name then some t else none)
unfolding pushed get_value
pushed-get_value nil t name = refl
pushed-get_value (cons u us) t name = elim (Bool-cases (same_name (name_of u) name)) [
  | inl e ↦ rw e refl
  | inr e ↦ rw e (pushed-get_value us t name)
]

pushed-count_tags : (ts : Tags) (t : Tag) → count_tags (pushed ts t) ≡ suc (count_tags ts)
unfolding pushed
pushed-count_tags nil t = refl
pushed-count_tags (cons u us) t = ap suc (pushed-count_tags us t)

-- In a compound with a tag more by addValue, getValue finds what it found before, and where it
-- found nothing, the added tag if it has the name asked for: a tag is not replaced by a later
-- one of its name. The compound has one tag more.
pub add_value-found_in :
    (n : List ℕ) (ts : Tags) (t : Tag) (name : List ℕ)
    → (found_in (add_value (compound n ts) t) name
        ≡ first_of (get_value ts name) (if same_name (name_of t) name then some t else none))
      × (values_of (add_value (compound n ts) t) ≡ suc (count_tags ts))
unfolding add_value
add_value-found_in n ts t name = (pushed-get_value ts t name, pushed-count_tags ts t)
