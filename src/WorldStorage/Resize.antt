-- ===== src/WorldStorage/Resize.antt =====
-- cubic-server/world_storage/DynamicStorage.hpp: the constructor and `setValueSize`.
use cubic_server.Common.{
  ℕ, zero, suc, ◌+◌, ◌%◌, ◌^◌, ◌≤◌, ◌<◌, ◌≡◌, refl, sym, ap, subst, ◌∙◌, arith, some,
  length-replicate, replicate, get_elem?, yes, no, ℕ_discrete, le→ltb, eq→==, ne→==, ok,
}
use cubic_server.Common.Bits.{pow_pos}
use cubic_server.WorldStorage.Storage.{
  DynamicStorage, per_word, word_count, construct, start_offset, get_value, copy_values,
  set_value_size,
}
use cubic_server.WorldStorage.Layout.{per_word_pos, index_below_count, replicate-All}
use native.Mathlib.Nat.{zero-div, zero-mod, mod-lt, pow-le-pow_right}
use cubic_server.WorldStorage.Entries.{
  HasData, word_at, size_not_zero, get_value-field, set_value-get_value,
}

pub get_elem?-replicate : (n i a : ℕ) → i < n → get_elem? (replicate n a) i ≡ some a
get_elem?-replicate zero i a h = absurd (omega arith)
get_elem?-replicate (suc n) zero a h = refl
get_elem?-replicate (suc n) (suc i) a h = get_elem?-replicate n i a (omega arith)

module _ (w n : ℕ) where
  abbrev pub zeros : (size : ℕ) → DynamicStorage
  zeros size = record { store = replicate (word_count w n size) 0; value_size = size }

  -- The constructor gives a storage of zeros.
  construct-zeros : (size : ℕ) → 1 ≤ size → size ≤ w → construct w n size ≡ ok (zeros size)
  unfolding construct
  construct-zeros size h p = ground arith

  pub zeros-HasData : (size : ℕ) → 1 ≤ size → size ≤ w → size ≤ 30 → HasData w n (zeros size)
  unfolding HasData
  zeros-HasData size h p q = (
    h,
    p,
    q,
    length-replicate (word_count w n size) 0,
    replicate-All (λ x. x < 2 ^ w) (word_count w n size) 0 (pow_pos w),
  )

  pub get_value-zeros :
      (size i : ℕ) → 1 ≤ size → size ≤ w → size ≤ 30 → i < n → get_value w n (zeros size) i ≡ ok 0
  get_value-zeros size i h p q t =
      get_value-field w n (zeros size) i 0 (zeros-HasData size h p q) t (
        get_elem?-replicate _ _ 0
          (index_below_count n (per_word w size) i (per_word_pos w size h p) t))
      ∙ ap ok (
          ap (λ (t : ℕ). t % 2 ^ size) (zero-div (2 ^ start_offset w size i)) ∙ zero-mod (2 ^ size))

  -- The values that a storage has, all below `2 ^ size`.
  abbrev FitsIn : ℕ → DynamicStorage → Type 0
  FitsIn size s = (i : ℕ) → i < n → (v : ℕ) × (get_value w n s i ≡ ok v) × (v < 2 ^ size)

  -- What the copy has done before index `i`, and has still to do from there.
  copy_values-copies :
      (old : DynamicStorage) (left i : ℕ) (new : DynamicStorage)
      → i + left ≡ n
      → HasData w n new
      → FitsIn new.value_size old
      → ((j : ℕ) → j < i → get_value w n new j ≡ get_value w n old j)
      → (s : DynamicStorage) × (copy_values w n old i left new ≡ ok s)
        × HasData w n s
        × (s.value_size ≡ new.value_size)
        × ((j : ℕ) → j < n → get_value w n s j ≡ get_value w n old j)
  unfolding copy_values
  copy_values-copies old zero i new e d f h = (new, refl, d, refl, λ j p. h j (omega arith))
  copy_values-copies old (suc left) i new e d f h =
      let (v, g, p) = f i (omega arith) in
      let (s, e₁, d₁, z₁, self, other) = set_value-get_value w n new i v d (omega arith) p in
      let (s', e₂, d₂, z₂, all) =
        copy_values-copies old left (suc i) s (omega arith) d₁
          (subst (λ (t : ℕ). FitsIn t old) (sym z₁) f)
          (λ j q. elim (ℕ_discrete i j) [
            | yes here ↦
                subst (λ (t : ℕ). get_value w n s t ≡ get_value w n old t) here (self ∙ sym g)
            | no there ↦ other j (omega arith) there ∙ h j (omega arith)
          ]) in
      (s', rw (g, e₁) e₂, d₂, z₂ ∙ z₁, all)

  pub get_value-lt :
      (s : DynamicStorage) (i : ℕ)
      → HasData w n s
      → i < n
      → (v : ℕ) × (get_value w n s i ≡ ok v) × (v < 2 ^ s.value_size)
  get_value-lt s i d h =
      let (x, e, q) = word_at w n s i d h in
      (_, get_value-field w n s i x d h e, mod-lt _ (pow_pos s.value_size))

  -- setValueSize of a storage that has data succeeds and keeps every value, provided each of
  -- them fits in the new size, which is from 1 to 30 bits and at most a word.
  pub set_value_size-keeps :
      (s : DynamicStorage) (size : ℕ)
      → HasData w n s
      → 1 ≤ size
      → size ≤ w
      → size ≤ 30
      → FitsIn size s
      → (s' : DynamicStorage) × (set_value_size w n s size ≡ ok s')
        × HasData w n s'
        × (s'.value_size ≡ size)
        × ((j : ℕ) → j < n → get_value w n s' j ≡ get_value w n s j)
  unfolding set_value_size
  set_value_size-keeps s size d h p q f = elim (ℕ_discrete size s.value_size) [
    | yes same ↦ (s, rw (eq→== size s.value_size same) refl, d, sym same, λ j k. refl)
    | no other ↦
        let (s', e, d', z, all) =
          copy_values-copies s n 0 (zeros size) (omega arith) (zeros-HasData size h p q) f
            (λ j k. absurd (omega arith)) in
        (
          s',
          rw
              (
                ne→== size s.value_size other,
                le→ltb w size p,
                ne→== size 0 (λ t. absurd (omega arith)),
                construct-zeros size h p,
                size_not_zero w n s d,
              )
              e,
          d',
          z,
          all,
        )
  ]

  -- The values that a storage has fit in any larger size.
  pub grows-FitsIn :
      (s : DynamicStorage) (size : ℕ) → HasData w n s → s.value_size ≤ size → FitsIn size s
  grows-FitsIn s size d h i p =
      let (v, e, q) = get_value-lt s i d p in
      (v, e, omega (arith, pow-le-pow_right {n = 2} (omega arith) h))

  -- `setValueSize` of a storage without data gives it zeros.
  pub set_value_size-zeros :
      (s : DynamicStorage) (size : ℕ)
      → s.value_size ≡ 0
      → 1 ≤ size
      → size ≤ w
      → set_value_size w n s size ≡ ok (zeros size)
  unfolding set_value_size
  set_value_size-zeros s size e h p =
      rw
        (
          ne→== size s.value_size (λ t. absurd (omega arith)),
          le→ltb w size p,
          ne→== size 0 (λ t. absurd (omega arith)),
          construct-zeros size h p,
          eq→== s.value_size 0 e,
        )
        refl
