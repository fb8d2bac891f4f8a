-- ===== src/WorldStorage/Entries.antt =====
-- cubic-server/world_storage/DynamicStorage.hpp: what `set` and `get` do to the values.
use cubic_server.Common.{
  ℕ, ◌-◌, ◌/◌, ◌^◌, ◌≤◌, ◌<◌, ◌≡◌, ◌≢◌, inl, inr, refl, sym, ap, ◌∙◌, arith, false, some, length,
  length-set, get_elem?, get_elem?-set_self, get_elem?-set_ne, set, All, ℕ_discrete, yes, no,
  lt→leb, le→leb, le→ltb, ◌==◌, ok,
}
use cubic_server.Common.Fields.{
  field, put_field, field_bits, put_field-bits, put_field-lt, field-put_self, field-put_above,
  field-put_below,
}
use cubic_server.WorldStorage.Storage.{
  DynamicStorage, per_word, word_count, start_offset, set_value, get_value,
}
use cubic_server.Common.Bits.{pow_pos}
use cubic_server.Common.Masks.{bit_and_mask}
use cubic_server.WorldStorage.Layout.{
  get-All, set-All, per_word_pos, offset_fits, index_below_count, same_word,
}
use native.Mathlib.Nat.{mod-eq_of_lt}

-- A storage that has data: sizes of up to 30 bits, whole words, none missing.
unfoldable pub HasData : ℕ → ℕ → DynamicStorage → Type 0
HasData w n s =
    (1 ≤ s.value_size)
    × (s.value_size ≤ w)
    × (s.value_size ≤ 30)
    × (length s.store ≡ word_count w n s.value_size)
    × All (λ x. x < 2 ^ w) s.store

module _ (w n : ℕ) where
  pub size_not_zero : (s : DynamicStorage) → HasData w n s → (s.value_size == 0) ≡ false
  unfolding HasData
  size_not_zero s (a, b, c, d, e) = ground arith

  pub word_at :
      (s : DynamicStorage) (i : ℕ)
      → HasData w n s
      → i < n
      → (x : ℕ) × (get_elem? s.store (i / per_word w s.value_size) ≡ some x) × (x < 2 ^ w)
  unfolding HasData
  word_at s i (a, b, c, d, e) h =
      get-All (λ x. x < 2 ^ w) s.store (i / per_word w s.value_size)
        (omega (
          arith,
          index_below_count n (per_word w s.value_size) i (per_word_pos w s.value_size a b) h,
        ))
        e

  -- `get` reads the field of the index in its word.
  pub get_value-field :
      (s : DynamicStorage) (i x : ℕ)
      → HasData w n s
      → i < n
      → get_elem? s.store (i / per_word w s.value_size) ≡ some x
      → get_value w n s i ≡ ok (field s.value_size (start_offset w s.value_size i) x)
  unfolding get_value HasData
  get_value-field s i x d h e =
      rw (size_not_zero s d, lt→leb n i h, le→leb s.value_size 30 d.2, e)
        (ap ok (field_bits s.value_size (start_offset w s.value_size i) x))

  -- The storage with the field replaced, in its word `x`.
  abbrev stored : (s : DynamicStorage) (i v x : ℕ) → DynamicStorage
  stored s i v x = record s {
    store =
        set s.store (i / per_word w s.value_size)
          (put_field s.value_size (start_offset w s.value_size i) x v);
  }

  -- `set` replaces it.
  set_value-field :
      (s : DynamicStorage) (i v x : ℕ)
      → HasData w n s
      → i < n
      → v < 2 ^ s.value_size
      → get_elem? s.store (i / per_word w s.value_size) ≡ some x
      → x < 2 ^ w
      → set_value w n s i v ≡ ok (stored s i v x)
  unfolding set_value HasData
  set_value-field s i v x d h p e q =
      rw
        (
          size_not_zero s d,
          lt→leb n i h,
          le→leb s.value_size 30 d.2,
          le→ltb (2 ^ s.value_size - 1) v (omega (arith, pow_pos s.value_size)),
          e,
          bit_and_mask s.value_size v,
          mod-eq_of_lt p,
          put_field-bits w s.value_size (start_offset w s.value_size i)
              (offset_fits w s.value_size i d.0 d.1) x v q p,
        )
        refl

  -- The values at the other indices stay.
  field-put_other :
      (size i j x v : ℕ)
      → v < 2 ^ size
      → i ≢ j
      → i / per_word w size ≡ j / per_word w size
      → field size (start_offset w size j) (put_field size (start_offset w size i) x v)
        ≡ field size (start_offset w size j) x
  field-put_other size i j x v h ne e = elim (same_word w size i j ne e) [
    | inl l ↦ field-put_above size (start_offset w size i) x v size (start_offset w size j) h l
    | inr l ↦ field-put_below size (start_offset w size i) x v size (start_offset w size j) l
  ]

  set_value-HasData :
      (s : DynamicStorage) (i v x : ℕ)
      → HasData w n s
      → v < 2 ^ s.value_size
      → x < 2 ^ w
      → HasData w n (stored s i v x)
  unfolding HasData
  set_value-HasData s i v x d p q = (
    d.0,
    d.1,
    d.2,
    length-set s.store (i / per_word w s.value_size) _ ∙ d.3,
    set-All (λ y. y < 2 ^ w) s.store (i / per_word w s.value_size) _
        (put_field-lt w s.value_size (start_offset w s.value_size i)
          (offset_fits w s.value_size i d.0 d.1) x v q p)
        d.4,
  )

  pub word_in_store :
      (s : DynamicStorage) (i : ℕ)
      → HasData w n s
      → i < n
      → i / per_word w s.value_size < length s.store
  unfolding HasData
  word_in_store s i d h = omega (
    arith,
    index_below_count n (per_word w s.value_size) i (per_word_pos w s.value_size d.0 d.1) h,
    d.3,
  )

  get_value-stored_self :
      (s : DynamicStorage) (i v x : ℕ)
      → HasData w n s
      → i < n
      → v < 2 ^ s.value_size
      → x < 2 ^ w
      → get_value w n (stored s i v x) i ≡ ok v
  get_value-stored_self s i v x d h p q =
      get_value-field (stored s i v x) i _ (set_value-HasData s i v x d p q) h
        (get_elem?-set_self s.store (i / per_word w s.value_size) _ (word_in_store s i d h))
      ∙ ap ok (field-put_self s.value_size (start_offset w s.value_size i) x v p)

  get_value-stored_ne :
      (s : DynamicStorage) (i j v x : ℕ)
      → HasData w n s
      → i < n
      → j < n
      → v < 2 ^ s.value_size
      → x < 2 ^ w
      → get_elem? s.store (i / per_word w s.value_size) ≡ some x
      → i ≢ j
      → get_value w n (stored s i v x) j ≡ get_value w n s j
  get_value-stored_ne s i j v x d h k p q e ne =
      elim (ℕ_discrete (i / per_word w s.value_size) (j / per_word w s.value_size)) [
        | yes same ↦
            get_value-field (stored s i v x) j _ (set_value-HasData s i v x d p q) k (
              ap (get_elem? (stored s i v x).store) (sym same)
              ∙ get_elem?-set_self s.store (i / per_word w s.value_size) _ (word_in_store s i d h))
            ∙ ap ok (field-put_other s.value_size i j x v p ne same)
            ∙ sym (get_value-field s j x d k (ap (get_elem? s.store) (sym same) ∙ e))
        | no other ↦
            let (y, f, r) = word_at s j d k in
            get_value-field (stored s i v x) j y (set_value-HasData s i v x d p q) k (
              get_elem?-set_ne s.store (i / per_word w s.value_size) (j / per_word w s.value_size) _
                other
              ∙ f)
            ∙ sym (get_value-field s j y d k f)
      ]

  -- On a storage that has data, set of a value that fits succeeds, get reads the value back, the
  -- values at the other indices stay, and so do the value size and the layout.
  pub set_value-get_value :
      (s : DynamicStorage) (i v : ℕ)
      → HasData w n s
      → i < n
      → v < 2 ^ s.value_size
      → (s' : DynamicStorage) × (set_value w n s i v ≡ ok s')
        × HasData w n s'
        × (s'.value_size ≡ s.value_size)
        × (get_value w n s' i ≡ ok v)
        × ((j : ℕ) → j < n → i ≢ j → get_value w n s' j ≡ get_value w n s j)
  set_value-get_value s i v d h p =
      let (x, e, q) = word_at s i d h in
      (
        stored s i v x,
        set_value-field s i v x d h p e q,
        set_value-HasData s i v x d p q,
        refl,
        get_value-stored_self s i v x d h p q,
        λ j k ne. get_value-stored_ne s i j v x d h k p q e ne,
      )
