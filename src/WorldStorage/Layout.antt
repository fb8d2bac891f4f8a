-- ===== src/WorldStorage/Layout.antt =====
-- cubic-server/world_storage/DynamicStorage.hpp: where in the words a value lies.
use cubic_server.Common.{
  ℕ, zero, suc, ◌+◌, ◌*◌, ◌/◌, ◌%◌, ◌≤◌, ◌<◌, ◌≡◌, ◌≢◌, ◌⊎◌, inl, inr, refl, sym, ap₂, ◌∙◌, arith,
  some, List, [], ◌∷◌, length, replicate, get_elem?, set, All, if◌then◌else◌, ◌==◌, Bool-cases,
}
use cubic_server.WorldStorage.Storage.{per_word, start_offset}
use native.Mathlib.Nat.{mod-lt, div-add-mod', div-mul-le_self, mul-le-mul_right, div-lt_iff_lt-mul}

-- The word at an index.
module _ (P : ℕ → Type 0) where
  pub get-All :
      (xs : List ℕ) (i : ℕ) → i < length xs → All P xs → (x : ℕ) × (get_elem? xs i ≡ some x) × P x
  get-All [] i h p = absurd (omega arith)
  get-All (x ∷ xs) zero h (p, ps) = (x, refl, p)
  get-All (x ∷ xs) (suc i) h (p, ps) = get-All xs i (omega arith) ps

  pub set-All : (xs : List ℕ) (i x : ℕ) → P x → All P xs → All P (set xs i x)
  set-All [] i x h p = tt
  set-All (y ∷ xs) zero x h (p, ps) = (h, ps)
  set-All (y ∷ xs) (suc i) x h (p, ps) = (p, set-All xs i x h ps)

  pub replicate-All : (n x : ℕ) → P x → All P (replicate n x)
  replicate-All zero x h = tt
  replicate-All (suc n) x h = (h, replicate-All n x h)

quotient_pos : (q m r a : ℕ) → q * m + r ≡ a → r < m → m ≤ a → 0 < q
quotient_pos zero m r a e h p = absurd (omega arith)
quotient_pos (suc q) m r a e h p = omega arith

pub per_word_pos : (w size : ℕ) → 1 ≤ size → size ≤ w → 0 < per_word w size
per_word_pos w size h p =
    quotient_pos (w / size) size (w % size) w (div-add-mod' w size) (mod-lt w h) p

-- The values of a word lie in it.
pub offset_fits : (w size i : ℕ) → 1 ≤ size → size ≤ w → start_offset w size i + size ≤ w
offset_fits w size i h p =
    omega
      (arith, mul-le-mul_right size (mod-lt i (per_word_pos w size h p)), div-mul-le_self w size)

pub index_below_count :
    (n per i : ℕ) → 0 < per → i < n → i / per < n / per + (if n % per == 0 then 0 else 1)
index_below_count n per i h p = elim (Bool-cases (n % per == 0)) [
  | inl e ↦ rw e ((div-lt_iff_lt-mul h).1 (ground (arith, div-add-mod' n per)))
  | inr e ↦ rw e ((div-lt_iff_lt-mul h).1 (omega (arith, div-add-mod' n per, mod-lt n h)))
]

lt_or_gt : (a b : ℕ) → a ≢ b → (a < b) ⊎ (b < a)
lt_or_gt a b h = ground arith

-- Two indices in the same word have fields apart.
pub same_word :
    (w size i j : ℕ)
    → i ≢ j
    → i / per_word w size ≡ j / per_word w size
    → (start_offset w size i + size ≤ start_offset w size j)
      ⊎ (start_offset w size j + size ≤ start_offset w size i)
same_word w size i j ne e =
    elim (lt_or_gt (i % per_word w size) (j % per_word w size) (λ e'. ne (same e'))) [
      | inl l ↦ inl (omega (arith, mul-le-mul_right size l))
      | inr l ↦ inr (omega (arith, mul-le-mul_right size l))
    ]
  where
    same : i % per_word w size ≡ j % per_word w size → i ≡ j
    same e' =
        sym (div-add-mod' i (per_word w size))
        ∙ ap₂ (λ (q r : ℕ). q * per_word w size + r) e e'
        ∙ div-add-mod' j (per_word w size)
