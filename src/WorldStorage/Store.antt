-- ===== src/WorldStorage/Store.antt =====
-- cubic-server/world_storage/Section.cpp: the body that setBlock and setBiome share, on a palette
-- and a storage that belong together.
use cubic_server.Common.{
  ℕ, zero, suc, ◌^◌, ◌≤◌, ◌<◌, ◌≡◌, ◌≢◌, ◌⊎◌, inl, inr, refl, sym, ap, subst, ◌∙◌, arith, none,
  List, length, get_or, ◌-◌, yes, no, ℕ_discrete, eq→==, ne→==, ok,
}
use cubic_server.WorldStorage.Storage.{DynamicStorage, set_value, get_value}
use cubic_server.WorldStorage.Entries.{HasData, size_not_zero, set_value-get_value}
use cubic_server.WorldStorage.Resize.{
  zeros, zeros-HasData, get_value-zeros, grows-FitsIn, set_value_size-keeps, set_value_size-zeros,
}
use cubic_server.WorldStorage.Palette.{get_id, get_global_id, add, initial_palette}
use cubic_server.WorldStorage.PaletteLaws.{
  find-cases, add-Found, add-Absent, add-get_id, get_global_id-below,
}
use cubic_server.WorldStorage.PaletteBits.{Counts}
use cubic_server.WorldStorage.Section.{Stored, keep, write_id, resize, store_id, load_id}

only_entry : (k g : ℕ) → k < 1 → get_or initial_palette k (2 ^ 32 - 1) ≡ g → 0 ≡ g
only_entry zero g h e = e
only_entry (suc k) g h e = absurd (omega arith)

module _ (bits : ℕ → ℕ) (limit : ℕ) (c : Counts bits limit) (n : ℕ) where
  -- The numbers in the storage have the size that the palette asks for, and the palette has them.
  abbrev Numbered : List ℕ → DynamicStorage → Type 0
  Numbered names storage =
      (2 ≤ length names)
      × HasData 64 n storage
      × (storage.value_size ≡ bits (length names))
      × ((i : ℕ) → i < n → (v : ℕ) × (get_value 64 n storage i ≡ ok v) × (v < length names))

  -- A palette and a storage that belong together: the id 0 alone needs no storage.
  unfoldable pub Together : List ℕ → DynamicStorage → Type 0
  Together names storage =
      ((names ≡ initial_palette) × (storage.value_size ≡ 0)) ⊎ Numbered names storage

  load_id-data :
      (names : List ℕ) (storage : DynamicStorage) (i v : ℕ)
      → HasData 64 n storage
      → get_value 64 n storage i ≡ ok v
      → load_id n names storage i ≡ ok (get_global_id names v)
  unfolding load_id
  load_id-data names storage i v d e = rw (size_not_zero 64 n storage d, e) refl

  load_id-no_data :
      (names : List ℕ) (storage : DynamicStorage) (i : ℕ)
      → storage.value_size ≡ 0
      → load_id n names storage i ≡ ok 0
  unfolding load_id
  load_id-no_data names storage i e = rw (eq→== storage.value_size 0 e) refl

  -- What the change of size leaves: numbers of the new size that stand for the same ids.
  abbrev Resized : List ℕ → DynamicStorage → ℕ → DynamicStorage → Type 0
  Resized names storage m s =
      HasData 64 n s
      × (s.value_size ≡ bits m)
      × ((j : ℕ)
          → j < n
          → (v : ℕ) × (get_value 64 n s j ≡ ok v)
            × (v < length names)
            × (load_id n names storage j ≡ ok (get_global_id names v)))

  resize-Numbered :
      (names : List ℕ) (storage : DynamicStorage) (m : ℕ)
      → Numbered names storage
      → length names ≤ m
      → (s : DynamicStorage) × (resize n storage (bits (length names)) (bits m) ≡ ok s)
        × Resized names storage m s
  resize-Numbered names storage m (two, d, z, vs) h =
      elim (ℕ_discrete (bits m) (bits (length names))) [
        | yes same ↦ (
          storage,
          rw (eq→== (bits m) (bits (length names)) same) refl,
          (
            d,
            z ∙ sym same,
            λ j p. let (v, e, q) = vs j p in (v, e, q, load_id-data names storage j v d e),
          ),
        )
        | no other ↦
            let (s, e, d', z', k) =
              set_value_size-keeps 64 n storage (bits m) d (c.some_from m (omega arith))
                (omega (arith, c.at_most m)) (omega (arith, c.at_most m))
                (grows-FitsIn 64 n storage (bits m) d
                  (omega (arith, z, c.mono (length names) m h))) in
            (
              s,
              rw
                  (
                    ne→== (bits m) (bits (length names)) other,
                    ne→== (bits m) 0 (λ t. absurd (omega (arith, c.some_from m (omega arith)))),
                  )
                  e,
              (
                d',
                z',
                λ j p.
                    let (v, g, q) = vs j p in (v, k j p ∙ g, q, load_id-data names storage j v d g),
              ),
            )
      ]

  resize-initial :
      (storage : DynamicStorage) (m : ℕ)
      → storage.value_size ≡ 0
      → 2 ≤ m
      → (s : DynamicStorage) × (resize n storage (bits 1) (bits m) ≡ ok s)
        × Resized initial_palette storage m s
  resize-initial storage m z h = (
    zeros 64 n (bits m),
    rw (c.none_below, ne→== (bits m) 0 (λ t. absurd (omega (arith, c.some_from m h))))
        (set_value_size-zeros 64 n storage (bits m) z (c.some_from m h)
          (omega (arith, c.at_most m))),
    (
      zeros-HasData 64 n (bits m) (c.some_from m h) (omega (arith, c.at_most m))
          (omega (arith, c.at_most m)),
      refl,
      λ j p. (
        0,
        get_value-zeros 64 n (bits m) j (c.some_from m h) (omega (arith, c.at_most m))
            (omega (arith, c.at_most m)) p,
        omega arith,
        load_id-no_data initial_palette storage j z
            ∙ ap ok (sym (get_global_id-below initial_palette 0 (omega arith))),
      ),
    ),
  )

  -- What a store leaves: the id is read back at its index, what is read at the others stays, and
  -- palette and storage still belong together.
  abbrev Holds : List ℕ → DynamicStorage → ℕ → ℕ → Stored → Type 0
  Holds names storage i g r =
      (r.thrown ≡ none)
      × Together r.names r.storage
      × (load_id n r.names r.storage i ≡ ok g)
      × ((j : ℕ) → j < n → i ≢ j → load_id n r.names r.storage j ≡ load_id n names storage j)

  -- The write, once the storage has the size for the longer palette.
  write-Holds :
      (names : List ℕ) (storage s : DynamicStorage) (i g : ℕ)
      → i < n
      → 2 ≤ length (add names g)
      → length (add names g) ≤ limit
      → Resized names storage (length (add names g)) s
      → Holds names storage i g (write_id n (add names g) storage i g (ok s))
  unfolding Together
  write-Holds names storage s i g h two small (d, z, vs) =
      let (below, back, longer, _, stay) = add-get_id names g in
      let (s', e, d', z', self, other) =
        set_value-get_value 64 n s i (get_id (add names g) g) d h
          (omega (arith, below, c.enough _ two small, ap (λ (t : ℕ). 2 ^ t) z)) in
      rw (e, keep)
        (
          refl,
          inr (
            two,
            d',
            z' ∙ z,
            λ j p. elim (ℕ_discrete i j) [
              | yes here ↦ (
                get_id (add names g) g,
                subst (λ (t : ℕ). get_value 64 n s' t ≡ ok (get_id (add names g) g)) here self,
                below,
              )
              | no there ↦ let (v, a, b, _) = vs j p in (v, other j p there ∙ a, omega arith)
            ],
          ),
          load_id-data (add names g) s' i _ d' self ∙ ap ok back,
          λ j p ne.
              let (v, a, b, f) = vs j p in
              load_id-data (add names g) s' j v d' (other j p ne ∙ a) ∙ ap ok (stay v b) ∙ sym f,
        )

  set_value-no_data :
      (s : DynamicStorage) (i v : ℕ) → s.value_size ≡ 0 → set_value 64 n s i v ≡ ok s
  unfolding set_value
  set_value-no_data s i v e = rw (eq→== s.value_size 0 e) refl

  initial-Holds :
      (storage : DynamicStorage) (i g : ℕ)
      → storage.value_size ≡ 0
      → i < n
      → length (add initial_palette g) ≤ limit
      → Holds initial_palette storage i g (store_id bits n initial_palette storage i g)
  unfolding store_id Together
  initial-Holds storage i g z h small = elim (find-cases g initial_palette) [
    | inl a ↦
        let two : 2 ≤ length (add initial_palette g) =
          omega (arith, ap length (add-Absent initial_palette g a)) in
        let (s, e, r) = resize-initial storage (length (add initial_palette g)) z two in
        rw e (write-Holds initial_palette storage s i g h two small r)
    | inr (k, f) ↦
        rw
          (
            add-Found initial_palette g k f,
            eq→== (bits 1) (bits 1) refl,
            set_value-no_data storage i (get_id initial_palette g) z,
            keep,
          )
          (
            refl,
            inl (refl, z),
            load_id-no_data initial_palette storage i z ∙ ap ok (only_entry k g f.1 f.2),
            λ j p ne. refl,
          )
  ]

  Numbered-Holds :
      (names : List ℕ) (storage : DynamicStorage) (i g : ℕ)
      → Numbered names storage
      → i < n
      → length (add names g) ≤ limit
      → Holds names storage i g (store_id bits n names storage i g)
  unfolding store_id
  Numbered-Holds names storage i g d h small =
      let (s, e, r) =
        resize-Numbered names storage (length (add names g)) d (add-get_id names g).2 in
      rw e (write-Holds names storage s i g h (omega (arith, d.0, (add-get_id names g).2)) small r)

  -- On a palette and a storage that belong together, storing an id at an index in range does not
  -- throw, provided the palette with the id has at most `limit` entries; it has the effect `Holds`.
  pub store_id-Holds :
      (names : List ℕ) (storage : DynamicStorage) (i g : ℕ)
      → Together names storage
      → i < n
      → length (add names g) ≤ limit
      → Holds names storage i g (store_id bits n names storage i g)
  unfolding Together
  store_id-Holds names storage i g (inl (e, z)) h small =
      subst
        (λ (t : List ℕ).
          length (add t g) ≤ limit → Holds t storage i g (store_id bits n t storage i g))
        (sym e) (initial-Holds storage i g z h) small
  store_id-Holds names storage i g (inr d) h small = Numbered-Holds names storage i g d h small
