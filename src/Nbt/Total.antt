-- ===== src/Nbt/Total.antt =====
-- `parse` on any input: it ends, stays within the input and takes a byte at least.
use cubic_server.Common.{
  ℕ, zero, suc, ◌+◌, ◌*◌, ◌^◌, ◌≤◌, inl, inr, List, [], ◌∷◌, arith, length, Bool, true, false,
  Bool-cases, ◌==◌, leb,
}
use cubic_server.Nbt.Tag.{
  Tag, Tags, byte, short, int, long, float, double, int_array, long_array, TagType, byte_type,
  short_type, int_type, long_type, float_type, double_type, byte_array_type, string_type, list_type,
  compound_type, int_array_type, long_array_type, tag_type,
}
use cubic_server.Nbt.Parser.{
  Parse, pure, ◌>>=◌, ◌>>◌, need, next, read_be, read_or, read_size, read_bytes, read_words,
  tag_head, read_length, rounds, need_elements,
}
use cubic_server.Nbt.Parse.{
  parse_byte, parse_short, parse_int, parse_long, parse_float, parse_double, reserve,
  parse_byte_array, parse_string, parse_int_array, parse_long_array, parse_list, parse_compound,
  dispatch, parse_tagged, parse_items, parse_entries,
}
use cubic_server.Nbt.Bounds.{
  Fine, Fine-mono, Fine-bind, guarded-Fine, Takes, Takes-Fine, next-Takes, read_be-Takes,
  read_or-Takes, read_size-Takes, read_bytes-Takes, read_words-Takes, read_length-Fine,
  need_elements-Fine, head_bytes, tag_head-Fine,
}

-- A tag whose body takes a byte at least.
leaf-Fine :
    (type : ℕ) (inc inl' : Bool) (bs : List ℕ) (body : List ℕ → Parse Tag)
    → ((n : List ℕ) (rest : List ℕ) → Fine 1 rest (body n rest))
    → Fine 1 bs ((tag_head type inc inl' >>= body) bs)
leaf-Fine type inc inl' bs body h =
    Fine-bind (head_bytes inl') 1 1 bs (tag_head type inc inl') body (omega arith)
      (tag_head-Fine type inc inl' bs) (λ n rest p. h n rest)

-- A number of n bytes behind its guard.
number-Fine :
    (n : ℕ) (m : Parse ℕ) (f : ℕ → Tag)
    → 1 ≤ n
    → ((bs : List ℕ) → n ≤ length bs → Takes n bs (m bs))
    → (bs : List ℕ) → Fine 1 bs ((need n >> (m >>= λ v. pure (f v))) bs)
number-Fine n m f h take bs =
    guarded-Fine n 0 1 bs m _ (omega arith) (take bs) (λ v rest p. omega arith)

-- An array of elements of `width` bytes.
array-Fine :
    (width : ℕ) (m : ℕ → Parse (List ℕ)) (f : List ℕ → Tag)
    → ((n : ℕ) (bs : List ℕ) → n * width ≤ length bs → Takes (n * width) bs (m n bs))
    → (size : ℕ) (bs : List ℕ)
    → Fine 0 bs ((need_elements width size >> (m (rounds size) >>= λ vs. pure (f vs))) bs)
array-Fine width m f take size bs = need_elements-Fine width size 0 bs _ (λ h.
    Fine-bind (rounds size * width) 0 0 bs (m (rounds size)) _ (omega arith)
      (Takes-Fine (rounds size * width) bs _ (take (rounds size) bs h)) (λ vs rest p. omega arith))

reserve-Fine :
    (size : ℕ) (bs : List ℕ) (m : Parse Tag) → Fine 0 bs (m bs) → Fine 0 bs ((reserve size >> m) bs)
unfolding reserve
reserve-Fine size bs m h = elim (Bool-cases (leb (2 ^ 31) size)) [
  | inl negative ↦ rw (negative, Fine) (λ e. cc)
  | inr positive ↦ rw (positive, Fine) h
]

module _ (inc inl' : Bool) (bs : List ℕ) where
  scalars-Fine :
      Fine 1 bs (parse_byte inc inl' bs)
      × Fine 1 bs (parse_short inc inl' bs)
      × Fine 1 bs (parse_int inc inl' bs)
      × Fine 1 bs (parse_long inc inl' bs)
      × Fine 1 bs (parse_float inc inl' bs)
      × Fine 1 bs (parse_double inc inl' bs)
  unfolding parse_byte parse_short parse_int parse_long parse_float parse_double
  scalars-Fine = (
    leaf-Fine 1 inc inl' bs _ (λ n. number-Fine 1 next (byte n) (omega arith) next-Takes),
    leaf-Fine 2 inc inl' bs _
        (λ n. number-Fine 2 (read_be 16 2 0) (short n) (omega arith) (read_be-Takes 16 2 0)),
    leaf-Fine 3 inc inl' bs _
        (λ n. number-Fine 4 (read_be 32 4 0) (int n) (omega arith) (read_be-Takes 32 4 0)),
    leaf-Fine 4 inc inl' bs _
        (λ n. number-Fine 8 (read_be 64 8 0) (long n) (omega arith) (read_be-Takes 64 8 0)),
    leaf-Fine 5 inc inl' bs _
        (λ n. number-Fine 4 (read_or 32 4 0) (float n) (omega arith) (read_or-Takes 32 4 0)),
    leaf-Fine 6 inc inl' bs _
        (λ n. number-Fine 8 (read_or 64 8 0) (double n) (omega arith) (read_or-Takes 64 8 0)),
  )

  string-Fine : Fine 1 bs (parse_string inc inl' bs)
  unfolding parse_string
  string-Fine = leaf-Fine 8 inc inl' bs _ (λ n rest.
      guarded-Fine 2 0 1 rest read_size _ (omega arith) (read_size-Takes rest) (λ size rest' p.
        guarded-Fine size 0 0 rest' (read_bytes size) _ (omega arith) (read_bytes-Takes size rest')
          (λ s rest'' p'. omega arith)))

  sized-Fine :
      (type : ℕ) (body : List ℕ → ℕ → Parse Tag)
      → ((n : List ℕ) (size : ℕ) (rest : List ℕ) → Fine 0 rest (body n size rest))
      → Fine 1 bs ((tag_head type inc inl' >>= λ n. read_length >>= body n) bs)
  sized-Fine type body h = leaf-Fine type inc inl' bs _ (λ n rest.
      Fine-bind 4 0 1 rest read_length (body n) (omega arith) (read_length-Fine rest)
        (λ size rest' p. h n size rest'))

  arrays-Fine : Fine 1 bs (parse_int_array inc inl' bs) × Fine 1 bs (parse_long_array inc inl' bs)
  unfolding parse_int_array parse_long_array
  arrays-Fine = (
    sized-Fine 11 _ (λ n. array-Fine 4 (read_words 32 4) (int_array n) (read_words-Takes 32 4)),
    sized-Fine 12 _ (λ n. array-Fine 8 (read_words 64 8) (long_array n) (read_words-Takes 64 8)),
  )

  byte_array-Fine : Fine 1 bs (parse_byte_array inc inl' bs)
  unfolding parse_byte_array
  byte_array-Fine = sized-Fine 7 _ (λ n size rest. need_elements-Fine 1 size 0 rest _ (λ h.
      reserve-Fine size rest _ (
        Fine-bind (rounds size) 0 0 rest (read_bytes (rounds size)) _ (omega arith)
          (Takes-Fine (rounds size) rest _ (read_bytes-Takes (rounds size) rest (omega arith)))
          (λ vs rest' p. omega arith))))

  -- The loops are given what they need: less input than the tag had, by its own bytes.
  list-Fine :
      (items : ℕ → ℕ → Parse Tags)
      → ((type n : ℕ) (rest : List ℕ)
          → 5 + length rest ≤ length bs
          → Fine 0 rest (items type n rest))
      → Fine 1 bs (parse_list items inc inl' bs)
  unfolding parse_list
  list-Fine items h =
      Fine-bind (head_bytes inl') 1 1 bs (tag_head 9 inc inl') _ (omega arith)
        (tag_head-Fine 9 inc inl' bs)
        (λ n rest p.
          guarded-Fine 1 0 1 rest next _ (omega arith) (next-Takes rest) (λ type rest' p'.
            Fine-bind 4 0 0 rest' read_length _ (omega arith) (read_length-Fine rest')
              (λ size rest'' p''.
                Fine-bind 0 0 0 rest'' (items type (rounds size)) _ (omega arith)
                  (h type (rounds size) rest'' (omega arith)) (λ vs rest''' p'''. omega arith))))

  compound-Fine :
      (entries : Parse Tags)
      → ((rest : List ℕ) → head_bytes inl' + length rest ≤ length bs → Fine 1 rest (entries rest))
      → Fine 1 bs (parse_compound entries inc inl' bs)
  unfolding parse_compound
  compound-Fine entries h =
      Fine-bind (head_bytes inl') 1 1 bs (tag_head 10 inc inl') _ (omega arith)
        (tag_head-Fine 10 inc inl' bs)
        (λ n rest p.
          Fine-bind 1 0 1 rest entries _ (omega arith) (h rest p) (λ vs rest' p'. omega arith))

  dispatch-Fine :
      (type : TagType) (items : ℕ → ℕ → Parse Tags) (entries : Parse Tags)
      → ((type n : ℕ) (rest : List ℕ)
          → 5 + length rest ≤ length bs
          → Fine 0 rest (items type n rest))
      → ((rest : List ℕ) → head_bytes inl' + length rest ≤ length bs → Fine 1 rest (entries rest))
      → Fine 1 bs (dispatch type items entries inc inl' bs)
  unfolding dispatch
  dispatch-Fine byte_type items entries hi he = scalars-Fine.0
  dispatch-Fine short_type items entries hi he = scalars-Fine.1
  dispatch-Fine int_type items entries hi he = scalars-Fine.2
  dispatch-Fine long_type items entries hi he = scalars-Fine.3
  dispatch-Fine float_type items entries hi he = scalars-Fine.4
  dispatch-Fine double_type items entries hi he = scalars-Fine.5
  dispatch-Fine byte_array_type items entries hi he = byte_array-Fine
  dispatch-Fine string_type items entries hi he = string-Fine
  dispatch-Fine list_type items entries hi he = list-Fine items hi
  dispatch-Fine compound_type items entries hi he = compound-Fine entries he
  dispatch-Fine int_array_type items entries hi he = arrays-Fine.0
  dispatch-Fine long_array_type items entries hi he = arrays-Fine.1
  dispatch-Fine _ items entries hi he = tt

-- In a list a tag may be read from the same byte as the loop's next, so it is given more fuel.
abbrev list_slack : Bool → ℕ
list_slack true = 2
list_slack false = 0

mutual
  unfolding parse_tagged

  parse_tagged-Fine :
      (f type : ℕ) (inc inl' : Bool) (bs : List ℕ)
      → 1 ≤ f
      → 2 * length bs + list_slack inl' ≤ f
      → Fine 1 bs (parse_tagged f type inc inl' bs)
  parse_tagged-Fine zero type inc inl' bs some h = absurd (omega arith)
  parse_tagged-Fine (suc f) type inc true bs some h =
      dispatch-Fine inc true bs (tag_type type) (parse_items f) (parse_entries f)
        (λ t n rest p. parse_items-Fine f t n rest (omega arith))
        (λ rest p. parse_entries-Fine f rest (omega arith))
  parse_tagged-Fine (suc f) type inc false bs some h =
      dispatch-Fine inc false bs (tag_type type) (parse_items f) (parse_entries f)
        (λ t n rest p. parse_items-Fine f t n rest (omega arith))
        (λ rest p. parse_entries-Fine f rest (omega arith))

  parse_items-Fine :
      (f type n : ℕ) (bs : List ℕ) → 2 * length bs + 3 ≤ f → Fine 0 bs (parse_items f type n bs)
  parse_items-Fine zero type n bs h = absurd (omega arith)
  parse_items-Fine (suc f) type zero bs h = omega arith
  parse_items-Fine (suc f) type (suc n) bs h =
      Fine-bind 1 0 0 bs (parse_tagged f type false true) _ (omega arith)
        (parse_tagged-Fine f type false true bs (omega arith) (omega arith))
        (λ t rest p.
          Fine-bind 0 0 0 rest (parse_items f type n) _ (omega arith)
            (parse_items-Fine f type n rest (omega arith)) (λ ts rest' p'. omega arith))

  parse_entries-Fine :
      (f : ℕ) (bs : List ℕ) → 2 * length bs + 1 ≤ f → Fine 1 bs (parse_entries f bs)
  parse_entries-Fine zero bs h = absurd (omega arith)
  parse_entries-Fine (suc f) [] h = tt
  parse_entries-Fine (suc f) (b ∷ bs) h = elim (Bool-cases (b == 0)) [
    | inl e ↦ rw (e, Fine) (omega arith)
    | inr e ↦
        rw (e, Fine)
          (Fine-bind 1 0 1 (b ∷ bs) (parse_tagged f b true false) _ (omega arith)
            (parse_tagged-Fine f b true false (b ∷ bs) (omega arith) (omega arith))
            (λ t rest p.
              Fine-bind 0 0 0 rest (parse_entries f) _ (omega arith)
                (Fine-mono 0 1 rest rest _ (omega arith) (parse_entries-Fine f rest (omega arith)))
                (λ ts rest' p'. omega arith)))
  ]
