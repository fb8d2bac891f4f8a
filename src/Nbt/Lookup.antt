-- ===== src/Nbt/Lookup.antt =====
-- cubic-server/nbt.hpp: hasValue, getValue and getValueAs of Compound, and getValueAs of List.
use cubic_server.Common.{
  ℕ, zero, suc, ◌≡◌, ◌⊎◌, inl, inr, refl, ap₂, Bool, true, false, not, ◌&&◌, Bool-cases, Option,
  none, some, List, [], ◌∷◌, if◌then◌else◌, ◌==◌, ==_iff, type_mismatch, out_of_range, Result, ok,
  err,
}
use cubic_server.Nbt.Tag.{Tag, Tags, nil, cons, type_of, name_of}

-- The comparison of two strings.
abbrev pub same_name : List ℕ → List ℕ → Bool
same_name [] [] = true
same_name (a ∷ as_) (b ∷ bs) = (a == b) && same_name as_ bs
same_name _ _ = false

unfoldable pub has_value : Tags → List ℕ → Bool
has_value nil name = false
has_value (cons t ts) name =
    let rest = has_value ts name in if same_name (name_of t) name then true else rest

-- `nullptr` is `none`.
unfoldable pub get_value : Tags → List ℕ → Option Tag
get_value nil name = none
get_value (cons t ts) name =
    let rest = get_value ts name in if same_name (name_of t) name then some t else rest

-- `getValueAs<T>`, for the tag type of T.
unfoldable pub get_value_as : ℕ → Tags → List ℕ → Result (Option Tag)
get_value_as type nil name = ok none
get_value_as type (cons t ts) name =
    let rest = get_value_as type ts name in
    if not (same_name (name_of t) name)
    then rest
    else if type_of t == type
    then ok (some t)
    else err type_mismatch

abbrev nth_tag : Tags → ℕ → Option Tag
nth_tag nil i = none
nth_tag (cons t ts) zero = some t
nth_tag (cons t ts) (suc i) = nth_tag ts i

abbrev as_type : ℕ → Option Tag → Result Tag
as_type type none = err out_of_range
as_type type (some t) = if type_of t == type then ok t else err type_mismatch

-- getValueAs of a List: past the size, `nth_tag` gives nothing.
unfoldable get_item_as : ℕ → Tags → ℕ → Result Tag
get_item_as type ts i = as_type type (nth_tag ts i)

-- What getValueAs makes of the tag that getValue finds.
abbrev pub typed : ℕ → Option Tag → Result (Option Tag)
typed type none = ok none
typed type (some t) = if type_of t == type then ok (some t) else err type_mismatch

both_true : (x y : Bool) → x && y ≡ true → (x ≡ true) × (y ≡ true)
both_true true y h = (refl, h)
both_true false y h = cc

same_name-eq : (a b : List ℕ) → same_name a b ≡ true → a ≡ b
same_name-eq [] [] h = refl
same_name-eq [] (b ∷ bs) h = cc
same_name-eq (a ∷ as_) [] h = cc
same_name-eq (a ∷ as_) (b ∷ bs) h =
    let (e, rest) = both_true (a == b) (same_name as_ bs) h in
    ap₂ ◌∷◌ ((==_iff a b).0 e) (same_name-eq as_ bs rest)

-- getValueAs of a compound looks at the tag that getValue finds: it gives nullptr for none, the
-- tag if it has the type asked for, and throws TypeMismatch for any other type.
pub get_value_as-get_value :
    (type : ℕ) (ts : Tags) (name : List ℕ)
    → get_value_as type ts name ≡ typed type (get_value ts name)
unfolding get_value_as get_value
get_value_as-get_value type nil name = refl
get_value_as-get_value type (cons t ts) name = elim (Bool-cases (same_name (name_of t) name)) [
  | inl e ↦ rw e refl
  | inr e ↦ rw e (get_value_as-get_value type ts name)
]

-- hasValue tells whether getValue finds a tag, and a tag that it finds has the name asked for.
pub has_value-get_value :
    (ts : Tags) (name : List ℕ)
    → ((has_value ts name ≡ true) × ((t : Tag) × (get_value ts name ≡ some t) × (name_of t ≡ name)))
      ⊎ ((has_value ts name ≡ false) × (get_value ts name ≡ none))
unfolding has_value get_value
has_value-get_value nil name = inr (refl, refl)
has_value-get_value (cons t ts) name = elim (Bool-cases (same_name (name_of t) name)) [
  | inl e ↦ inl (rw e refl, (t, rw e refl, same_name-eq (name_of t) name e))
  | inr e ↦ rw e (has_value-get_value ts name)
]
