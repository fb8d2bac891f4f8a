-- ===== src/Nbt/Rounds.antt =====
-- The loops over the entries of a compound and the elements of a list, and the fuel that they take.
use cubic_server.Common.{
  ℕ, zero, suc, ◌+◌, ◌*◌, ◌≤◌, ◌≡◌, ◌⊎◌, refl, ◌∙◌, List, [], ◌∷◌, ◌++◌, append_assoc, arith,
  length, length-append, Bool, true, false, not, ok, if◌then◌else◌, ◌==◌,
}
use cubic_server.Nbt.Tag.{Tag, Tags, byte, nil, cons, type_of, count_tags}
use cubic_server.Nbt.Serialize.{
  pre_serialize, size_bytes, serialize, serialize_entries, serialize_items,
}
use cubic_server.Nbt.Parser.{parsed, bind_parsed}
use cubic_server.Nbt.Parse.{parse_tagged, parse_items, parse_entries}

type_of_pos : (t : Tag) → 1 ≤ type_of t
type_of_pos (byte n v) = omega arith
type_of_pos _ = omega arith

-- A tag in a list takes more fuel, since its own bytes may be none but the end of a compound.
abbrev slack : Bool → ℕ
slack true = 0
slack false = 2

abbrev pub RoundTrips : Bool → Tag → Type 0
RoundTrips inc t =
    (bytes : List ℕ) × (serialize inc t ≡ ok bytes)
    × (1 ≤ length bytes)
    × (inc ≡ true → (tail : List ℕ) × (bytes ≡ type_of t ∷ tail))
    × ((f : ℕ) (rest : List ℕ)
        → 2 * length (bytes ++ rest) + slack inc ≤ f
        → parse_tagged f (type_of t) inc (not inc) (bytes ++ rest) ≡ parsed t rest)

starts_with_type :
    (inc : Bool) (type : ℕ) (name body : List ℕ)
    → inc ≡ true
    → (tail : List ℕ) × (pre_serialize inc type name ++ body ≡ type ∷ tail)
starts_with_type true type name body e = (size_bytes (length name) ++ name ++ body, refl)
starts_with_type false type name body e = absurd (cc)

-- The bytes in front of the body: at least three where there is a name.
pub length-pre_serialize :
    (inc : Bool) (type : ℕ) (name : List ℕ)
    → 3 ≤ length (pre_serialize inc type name) + slack inc + 1
length-pre_serialize true type name = omega arith
length-pre_serialize false type name = omega arith

pub fueled :
    (inc : Bool) (t : Tag) (name body : List ℕ)
    → serialize inc t ≡ ok (pre_serialize inc (type_of t) name ++ body)
    → 1 ≤ length body
    → ((f : ℕ) (rest : List ℕ)
        → 2 * (length (pre_serialize inc (type_of t) name) + length body + length rest) + slack inc
          ≤ suc f
        → parse_tagged
            (suc f)
            (type_of t)
            inc
            (not inc)
            ((pre_serialize inc (type_of t) name ++ body) ++ rest)
          ≡ parsed t rest)
    → RoundTrips inc t
fueled inc t name body written more back = (
  pre_serialize inc (type_of t) name ++ body,
  written,
  omega (arith, length-append (pre_serialize inc (type_of t) name) body),
  starts_with_type inc (type_of t) name body,
  run,
)
  where
    run :
        (f : ℕ) (rest : List ℕ)
        → 2 * length ((pre_serialize inc (type_of t) name ++ body) ++ rest) + slack inc ≤ f
        → parse_tagged f
            (type_of t)
            inc
            (not inc)
            ((pre_serialize inc (type_of t) name ++ body) ++ rest)
          ≡ parsed t rest
    run zero rest h = absurd (
        omega (
          arith,
          length-append (pre_serialize inc (type_of t) name ++ body) rest,
          length-append (pre_serialize inc (type_of t) name) body,
        ))
    run (suc f) rest h = back f rest (
        omega (
          arith,
          length-append (pre_serialize inc (type_of t) name ++ body) rest,
          length-append (pre_serialize inc (type_of t) name) body,
        ))

abbrev pub ItemsTrip : ℕ → ℕ → Tags → Type 0
ItemsTrip current type ts =
    (bytes : List ℕ) × (serialize_items current ts ≡ ok bytes)
    × ((f : ℕ) (rest : List ℕ)
        → 2 * length (bytes ++ rest) + 3 ≤ f
        → parse_items f type (count_tags ts) (bytes ++ rest) ≡ parsed ts rest)

abbrev pub EntriesTrip : Tags → Type 0
EntriesTrip ts =
    (bytes : List ℕ) × (serialize_entries ts ≡ ok bytes)
    × (1 ≤ length bytes)
    × ((f : ℕ) (rest : List ℕ)
        → 2 * length (bytes ++ rest) + 1 ≤ f
        → parse_entries f (bytes ++ rest) ≡ parsed ts rest)

pub nil-EntriesTrip : EntriesTrip nil
unfolding serialize_entries parse_entries
nil-EntriesTrip = (0 ∷ [], refl, omega arith, run)
  where
    run :
        (f : ℕ) (rest : List ℕ)
        → 2 * length (0 ∷ rest) + 1 ≤ f
        → parse_entries f (0 ∷ rest) ≡ parsed nil rest
    run zero rest h = absurd (omega arith)
    run (suc f) rest h = refl

entries_round :
    (f type : ℕ) (tail mid rest : List ℕ) (t : Tag) (ts : Tags)
    → 1 ≤ type
    → parse_tagged f type true false (type ∷ tail) ≡ parsed t mid
    → parse_entries f mid ≡ parsed ts rest
    → parse_entries (suc f) (type ∷ tail) ≡ parsed (cons t ts) rest
unfolding parse_entries
entries_round f type tail mid rest t ts h e e' =
    rw (not_end type h)
      (bind_parsed (parse_tagged f type true false) _ _ e ∙ bind_parsed (parse_entries f) _ mid e')
  where
    not_end : (type : ℕ) → 1 ≤ type → (type == 0) ≡ false
    not_end type h = ground arith

pub cons-EntriesTrip :
    (t : Tag) (ts : Tags) → RoundTrips true t → EntriesTrip ts → EntriesTrip (cons t ts)
unfolding serialize_entries
cons-EntriesTrip t ts (b, w, more, typed, back) (b', w', more', back') =
    (b ++ b', rw (w, w'), omega (arith, length-append b b'), run)
  where
    run :
        (f : ℕ) (rest : List ℕ)
        → 2 * length ((b ++ b') ++ rest) + 1 ≤ f
        → parse_entries f ((b ++ b') ++ rest) ≡ parsed (cons t ts) rest
    run zero rest h = absurd (omega arith)
    run (suc f) rest h =
        let (tail, starts) = typed refl in
        rw (append_assoc b b' rest, starts)
          (entries_round f (type_of t) (tail ++ (b' ++ rest)) (b' ++ rest) rest t ts (type_of_pos t)
            (rw starts at (
              back f (b' ++ rest) (
                omega (
                  arith,
                  length-append (b ++ b') rest,
                  length-append b b',
                  length-append b (b' ++ rest),
                  length-append b' rest,
                ))))
            (back' f rest (
              omega
                (arith, length-append (b ++ b') rest, length-append b b', length-append b' rest))))

pub nil-ItemsTrip : (current type : ℕ) → ItemsTrip current type nil
unfolding serialize_items parse_items
nil-ItemsTrip current type = ([], refl, run)
  where
    run :
        (f : ℕ) (rest : List ℕ)
        → 2 * length rest + 3 ≤ f
        → parse_items f type 0 rest ≡ parsed nil rest
    run zero rest h = absurd (omega arith)
    run (suc f) rest h = refl

items_round :
    (f type n : ℕ) (bs mid rest : List ℕ) (t : Tag) (ts : Tags)
    → parse_tagged f type false true bs ≡ parsed t mid
    → parse_items f type n mid ≡ parsed ts rest
    → parse_items (suc f) type (suc n) bs ≡ parsed (cons t ts) rest
unfolding parse_items
items_round f type n bs mid rest t ts e e' =
    bind_parsed (parse_tagged f type false true) _ _ e ∙ bind_parsed (parse_items f type n) _ mid e'

-- The variable `current` of the loop always holds the type of the elements.
current_type :
    (current type : ℕ)
    → (current ≡ 0) ⊎ (current ≡ type)
    → (if current == 0 then type else current) ≡ type
current_type current type c = ground arith

same_test : (n : ℕ) → (n == n) ≡ true
same_test n = ground arith

pub cons-ItemsTrip :
    (current type : ℕ) (t : Tag) (ts : Tags)
    → (current ≡ 0) ⊎ (current ≡ type)
    → type_of t ≡ type
    → RoundTrips false t
    → ItemsTrip type type ts
    → ItemsTrip current type (cons t ts)
unfolding serialize_items
cons-ItemsTrip current type t ts c same (b, w, more, typed, back) (b', w', back') =
    (b ++ b', rw (same, current_type current type c, same_test type, w, w'), run)
  where
    run :
        (f : ℕ) (rest : List ℕ)
        → 2 * length ((b ++ b') ++ rest) + 3 ≤ f
        → parse_items f type (suc (count_tags ts)) ((b ++ b') ++ rest) ≡ parsed (cons t ts) rest
    run zero rest h = absurd (omega arith)
    run (suc f) rest h = rw (append_assoc b b' rest) (
        items_round f type (count_tags ts) (b ++ (b' ++ rest)) (b' ++ rest) rest t ts
          (rw same at (
            back f (b' ++ rest) (
              omega (
                arith,
                length-append (b ++ b') rest,
                length-append b b',
                length-append b (b' ++ rest),
                length-append b' rest,
              ))))
          (back' f rest (
            omega
              (arith, length-append (b ++ b') rest, length-append b b', length-append b' rest))))
