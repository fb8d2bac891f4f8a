-- ===== src/WorldStorage/PaletteLaws.antt =====
-- cubic-server/world_storage/Palette.cpp: what looking up, adding and removing entries do.
use cubic_server.Common.{
  ℕ, zero, suc, ◌+◌, ◌-◌, ◌^◌, ◌≤◌, ◌<◌, ◌≡◌, ◌≢◌, ◌⊎◌, refl, sym, ap, ◌∙◌, arith, inl, inr, none,
  some, List, [], ◌∷◌, ◌++◌, length, length-append, take, get_or, lt→leb, eq→==, ne→==, yes, no,
  ℕ_discrete,
}
use cubic_server.WorldStorage.Palette.{
  find_from, find, get_id, get_global_id, add, remove_all, remove, remove_loop,
}

abbrev pub Absent : ℕ → List ℕ → Type 0
Absent g xs = find g xs ≡ none

abbrev Found : ℕ → List ℕ → ℕ → Type 0
Found g xs i = (find g xs ≡ some i) × (i < length xs) × (get_or xs i (2 ^ 32 - 1) ≡ g)

find_from-cases :
    (k g : ℕ) (xs : List ℕ)
    → (find_from k g xs ≡ none)
      ⊎ ((i : ℕ) × (find_from k g xs ≡ some (k + i))
          × (i < length xs)
          × (get_or xs i (2 ^ 32 - 1) ≡ g))
find_from-cases k g [] = inl refl
find_from-cases k g (x ∷ xs) = elim (ℕ_discrete x g) [
  | yes e ↦ inr (0, rw (eq→== x g e) (ap some (omega arith)), omega arith, e)
  | no ne ↦ elim (find_from-cases (suc k) g xs) [
    | inl h ↦ inl (rw (ne→== x g ne) h)
    | inr (i, h, p, q) ↦ inr (suc i, rw (ne→== x g ne) (h ∙ ap some (omega arith)), omega arith, q)
  ]
]

pub find-cases : (g : ℕ) (xs : List ℕ) → Absent g xs ⊎ ((i : ℕ) × Found g xs i)
find-cases g xs = elim (find_from-cases 0 g xs) [
  | inl h ↦ inl h
  | inr (i, h, p, q) ↦ inr (i, (h ∙ ap some (omega arith), p, q))
]

some-ne-none : {i : ℕ} → some i ≢ none
some-ne-none e = cc e

find_from-here : (k g x : ℕ) (xs : List ℕ) → x ≡ g → find_from k g (x ∷ xs) ≡ some k
find_from-here k g x xs e = rw (eq→== x g e) refl

find_from-there :
    (k g x : ℕ) (xs : List ℕ) → x ≢ g → find_from k g (x ∷ xs) ≡ find_from (suc k) g xs
find_from-there k g x xs ne = rw (ne→== x g ne) refl

-- An entry behind those that differ from it.
find_from-append :
    (k g : ℕ) (xs : List ℕ)
    → find_from k g xs ≡ none
    → find_from k g (xs ++ g ∷ []) ≡ some (k + length xs)
find_from-append k g [] h = rw (eq→== g g refl) (ap some (omega arith))
find_from-append k g (x ∷ xs) h = elim (ℕ_discrete x g) [
  | yes e ↦ absurd (some-ne-none (sym (find_from-here k g x xs e) ∙ h))
  | no ne ↦ rw (ne→== x g ne) (
      find_from-append (suc k) g xs (sym (find_from-there k g x xs ne) ∙ h) ∙ ap some (omega arith))
]

get_or-append_left :
    (xs ys : List ℕ) (i d : ℕ) → i < length xs → get_or (xs ++ ys) i d ≡ get_or xs i d
get_or-append_left [] ys i d h = absurd (omega arith)
get_or-append_left (x ∷ xs) ys zero d h = refl
get_or-append_left (x ∷ xs) ys (suc i) d h = get_or-append_left xs ys i d (omega arith)

get_or-append_here : (xs : List ℕ) (g d : ℕ) → get_or (xs ++ g ∷ []) (length xs) d ≡ g
get_or-append_here [] g d = refl
get_or-append_here (x ∷ xs) g d = get_or-append_here xs g d

-- `add` leaves a palette that holds the id as it is, and appends it to one that does not.
pub add-Found : (names : List ℕ) (g i : ℕ) → Found g names i → add names g ≡ names
unfolding add
add-Found names g i (e, h, q) = rw e refl

pub add-Absent : (names : List ℕ) (g : ℕ) → Absent g names → add names g ≡ names ++ g ∷ []
unfolding add
add-Absent names g e = rw e refl

pub get_id-Found : (names : List ℕ) (g i : ℕ) → Found g names i → get_id names g ≡ i
unfolding get_id
get_id-Found names g i (e, h, q) = rw e refl

pub get_global_id-below :
    (names : List ℕ) (i : ℕ)
    → i < length names
    → get_global_id names i ≡ get_or names i (2 ^ 32 - 1)
unfolding get_global_id
get_global_id-below names i h = rw (lt→leb (length names) i h) refl

pub Found-appended :
    (names : List ℕ) (g : ℕ) → Absent g names → Found g (names ++ g ∷ []) (length names)
Found-appended names g e = (
  find_from-append 0 g names e ∙ ap some (omega arith),
  omega (arith, length-append names (g ∷ [])),
  get_or-append_here names g _,
)

-- After Palette::add, the id has a number below the size, which getGlobalId gives the id back
-- for; the palette grew by one entry at most, and the numbers handed out before still stand for
-- what they stood for.
pub add-get_id :
    (names : List ℕ) (g : ℕ)
    → (get_id (add names g) g < length (add names g))
      × (get_global_id (add names g) (get_id (add names g) g) ≡ g)
      × (length names ≤ length (add names g))
      × (length (add names g) ≤ suc (length names))
      × ((i : ℕ) → i < length names → get_global_id (add names g) i ≡ get_global_id names i)
add-get_id names g = elim (find-cases g names) [
  | inl a ↦
      rw (add-Absent names g a, get_id-Found (names ++ g ∷ []) g _ (Found-appended names g a))
        (
          (Found-appended names g a).1,
          get_global_id-below (names ++ g ∷ []) _ (Found-appended names g a).1
              ∙ get_or-append_here names g _,
          omega (arith, length-append names (g ∷ [])),
          omega (arith, length-append names (g ∷ [])),
          λ i h.
              get_global_id-below (names ++ g ∷ []) i (omega (arith, length-append names (g ∷ [])))
              ∙ get_or-append_left names (g ∷ []) i _ h
              ∙ sym (get_global_id-below names i h),
        )
  | inr (i, f) ↦
      rw (add-Found names g i f, get_id-Found names g i f)
        (f.1, get_global_id-below names i f.1 ∙ f.2, omega arith, omega arith, λ j h. refl)
]

-- What stands before the first entry found has none.
find_from-take :
    (k g i : ℕ) (xs : List ℕ) → find_from k g xs ≡ some (k + i) → find_from k g (take i xs) ≡ none
find_from-take k g zero xs h = refl
find_from-take k g (suc i) [] h = refl
find_from-take k g (suc i) (x ∷ xs) h = elim (ℕ_discrete x g) [
  | yes e ↦ absurd (other_index k i (sym (find_from-here k g x xs e) ∙ h))
  | no ne ↦
      find_from-there k g x (take i xs) ne
      ∙ find_from-take (suc k) g i xs
          (sym (find_from-there k g x xs ne) ∙ h ∙ ap some (omega arith))
]
  where
    other_index : (k i : ℕ) → some k ≢ some (k + suc i)
    other_index k i e = ground arith

remove_loop-Absent :
    (rounds g : ℕ) (names : List ℕ) → Absent g names → remove_loop rounds g names ≡ names
remove_loop-Absent zero g names h = refl
remove_loop-Absent (suc rounds) g names h = rw (h, remove_loop) refl

remove_loop-remove_all :
    (rounds g : ℕ) (names : List ℕ)
    → length names ≤ rounds
    → remove_loop rounds g names ≡ remove_all names g
unfolding remove_all
remove_loop-remove_all zero g [] h = refl
remove_loop-remove_all zero g (x ∷ xs) h = absurd (omega arith)
remove_loop-remove_all (suc rounds) g names h = elim (find-cases g names) [
  | inl a ↦ rw (a, remove_loop) refl
  | inr (i, f) ↦ elim (ℕ_discrete (suc i) (length names)) [
    | yes last ↦
        rw (f.0, remove_loop, eq→== (suc i) (length names) last)
          (remove_loop-Absent rounds g (take i names)
            (find_from-take 0 g i names (f.0 ∙ ap some (omega arith))))
    | no more ↦ rw (f.0, remove_loop, ne→== (suc i) (length names) more) refl
  ]
]

-- Palette::remove, which loops until the id is no longer found as the last entry, leaves what
-- removeAll leaves.
pub remove-remove_all : (names : List ℕ) (g : ℕ) → remove names g ≡ remove_all names g
unfolding remove
remove-remove_all names g = remove_loop-remove_all (length names) g names (omega arith)
