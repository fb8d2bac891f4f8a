-- ===== src/WorldStorage/LightLaws.antt =====
-- cubic-server/world_storage/Section.cpp: the lights that are set are read back, and the counts are
-- those of the lit positions.
use cubic_server.Common.{
  ℕ, zero, suc, ◌+◌, ◌-◌, ◌^◌, ◌≤◌, ◌<◌, ◌≡◌, ◌≢◌, refl, sym, ap, subst, ◌∙◌, arith, yes, no,
  ℕ_discrete, ne→==, Result, ok, err,
}
use cubic_server.WorldStorage.Storage.{DynamicStorage, set_value, get_value}
use cubic_server.WorldStorage.Entries.{HasData, set_value-get_value}
use cubic_server.WorldStorage.Lights.{recount}
use cubic_server.WorldStorage.Resize.{get_value-lt}

-- 1 for a light that is read and is not 0.
abbrev pub is_lit : Result ℕ → ℕ
is_lit (ok zero) = 0
is_lit (ok (suc light)) = 1
is_lit (err e) = 0

-- How many of the first `k` indices are lit.
abbrev pub lit_below : (ℕ → Result ℕ) → ℕ → ℕ
lit_below read zero = 0
lit_below read (suc k) = lit_below read k + is_lit (read k)

is_lit-le : (r : Result ℕ) → is_lit r ≤ 1
is_lit-le (ok zero) = omega arith
is_lit-le (ok (suc l)) = omega arith
is_lit-le (err e) = omega arith

lit_below-le : (read : ℕ → Result ℕ) (k : ℕ) → lit_below read k ≤ k
lit_below-le read zero = omega arith
lit_below-le read (suc k) = omega (arith, lit_below-le read k, is_lit-le (read k))

is_lit-le_below : (f : ℕ → Result ℕ) (i k : ℕ) → i < k → is_lit (f i) ≤ lit_below f k
is_lit-le_below f i zero h = absurd (omega arith)
is_lit-le_below f i (suc k) h = elim (ℕ_discrete i k) [
  | yes here ↦ omega (arith, ap (λ (t : ℕ). is_lit (f t)) here)
  | no there ↦ omega (arith, is_lit-le_below f i k (omega arith))
]

-- Two readings that agree off one index.
module _ (f g : ℕ → Result ℕ) (i : ℕ) where
  lit_below-same :
      (k : ℕ) → k ≤ i → ((j : ℕ) → j < k → i ≢ j → g j ≡ f j) → lit_below g k ≡ lit_below f k
  lit_below-same zero h e = refl
  lit_below-same (suc k) h e = omega (
    arith,
    lit_below-same k (omega arith) (λ j p ne. e j (omega arith) ne),
    ap is_lit (e k (omega arith) (λ t. absurd (omega arith))),
  )

  lit_below-change :
      (k : ℕ)
      → i < k
      → ((j : ℕ) → j < k → i ≢ j → g j ≡ f j)
      → lit_below g k + is_lit (f i) ≡ lit_below f k + is_lit (g i)
  lit_below-change zero h e = absurd (omega arith)
  lit_below-change (suc k) h e = elim (ℕ_discrete i k) [
    | yes here ↦ omega (
      arith,
      lit_below-same k (omega arith) (λ j p ne. e j (omega arith) ne),
      ap (λ (t : ℕ). is_lit (f t)) here,
      ap (λ (t : ℕ). is_lit (g t)) here,
    )
    | no there ↦ omega (
      arith,
      lit_below-change k (omega arith) (λ j p ne. e j (omega arith) ne),
      ap is_lit (e k (omega arith) there),
    )
  ]

recount-counts :
    (old new n : ℕ)
    → n < 2 ^ 64 - 1
    → is_lit (ok old) ≤ n
    → recount old new n + is_lit (ok old) ≡ n + is_lit (ok new)
recount-counts zero zero n h p = omega arith
recount-counts zero (suc new) n h p =
    rw (ne→== (suc new) 0 (λ e. absurd (omega arith))) (omega arith)
recount-counts (suc old) zero n h p =
    rw (ne→== (suc old) 0 (λ e. absurd (omega arith))) (omega arith)
recount-counts (suc old) (suc new) n h p =
    rw
      (ne→== (suc old) 0 (λ e. absurd (omega arith)), ne→== (suc new) 0 (λ e. absurd (omega arith)))
      refl

-- The positions of a storage that are lit.
unfoldable pub lit_count : ℕ → DynamicStorage → ℕ
lit_count n lights = lit_below (get_value 8 n lights) n

module _ (n : ℕ) (small : n ≤ 4096) where
  -- Lights that have data of four bits, with the count of those that are not 0.
  abbrev pub Counted : DynamicStorage → ℕ → Type 0
  Counted lights count = HasData 8 n lights × (lights.value_size ≡ 4) × (count ≡ lit_count n lights)

  -- What a setter leaves, of the lights before it.
  abbrev Lit : DynamicStorage → ℕ → ℕ → DynamicStorage → ℕ → Type 0
  Lit lights i light after count =
      Counted after count
      × (get_value 8 n after i ≡ ok light)
      × ((j : ℕ) → j < n → i ≢ j → get_value 8 n after j ≡ get_value 8 n lights j)

  recount-lit_count :
      (lights after : DynamicStorage) (i old light : ℕ)
      → i < n
      → get_value 8 n lights i ≡ ok old
      → get_value 8 n after i ≡ ok light
      → ((j : ℕ) → j < n → i ≢ j → get_value 8 n after j ≡ get_value 8 n lights j)
      → recount old light (lit_count n lights) ≡ lit_count n after
  unfolding lit_count
  recount-lit_count lights after i old light h g self other = omega (
    arith,
    recount-counts old light (lit_below (get_value 8 n lights) n)
        (omega (arith, lit_below-le (get_value 8 n lights) n))
        (omega (arith, is_lit-le_below (get_value 8 n lights) i n h, ap is_lit g)),
    lit_below-change (get_value 8 n lights) (get_value 8 n after) i n h other,
    ap is_lit g,
    ap is_lit self,
  )

  pub set_light-Lit :
      (lights : DynamicStorage) (count i light : ℕ)
      → Counted lights count
      → i < n
      → light < 16
      → (old : ℕ) × (after : DynamicStorage) × (get_value 8 n lights i ≡ ok old)
        × (set_value 8 n lights i light ≡ ok after)
        × Lit lights i light after (recount old light count)
  set_light-Lit lights count i light (d, z, e) h p =
      let (old, g, _) = get_value-lt 8 n lights i d h in
      let (after, f, d', z', self, other) =
        set_value-get_value 8 n lights i light d h
          (subst (λ (t : ℕ). light < 2 ^ t) (sym z) (omega arith)) in
      (
        old,
        after,
        g,
        f,
        (
          (
            d',
            z' ∙ z,
            ap (recount old light) e ∙ recount-lit_count lights after i old light h g self other,
          ),
          self,
          other,
        ),
      )
