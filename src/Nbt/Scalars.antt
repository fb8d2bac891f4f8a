-- ===== src/Nbt/Scalars.antt =====
-- Each parse function that calls no other reads back what the method of its class wrote.
use cubic_server.Common.{
  ℕ, ◌^◌, ◌≤◌, ◌<◌, ◌≡◌, ◌∙◌, List, [], ◌∷◌, ◌++◌, append_assoc, arith, length, length-append, Bool,
  false, not, All, lt→leb,
}
use cubic_server.Protocol.Add.{be_bytes, le_bytes, push_reversed}
use cubic_server.Protocol.RoundTrip.Fixed.{length-be_bytes}
use cubic_server.Nbt.Tag.{
  byte, short, int, long, float, double, byte_array, string, int_array, long_array,
}
use cubic_server.Nbt.Serialize.{size_bytes, pre_serialize, array_bytes}
use cubic_server.Nbt.Parser.{
  parsed, bind_parsed, need, next, read_be, read_or, read_size, read_bytes, read_words, read_length,
  need_elements,
}
use cubic_server.Nbt.Parse.{
  parse_byte, parse_short, parse_int, parse_long, parse_float, parse_double, reserve,
  parse_byte_array, parse_string, parse_int_array, parse_long_array,
}
use cubic_server.Nbt.Reads.{
  need_met, read_number, size_bytes-be_bytes, need_elements_met, rounds_small, length-array_bytes,
  reversed_four, reversed_eight, read_size-size_bytes, read_bytes-append, read_words-array_bytes,
  read_length-be_bytes, after_head,
}
use cubic_server.Nbt.Patterns.{read_pattern}

module _ (include_name : Bool) (name : List ℕ) (short_name : length name < 2 ^ 16)
    (unnamed : include_name ≡ false → name ≡ []) (rest : List ℕ) where
  pub parse_byte-serialize :
      (v : ℕ)
      → parse_byte include_name
          (not include_name)
          ((pre_serialize include_name 1 name ++ (v ∷ [])) ++ rest)
        ≡ parsed (byte name v) rest
  unfolding parse_byte next
  parse_byte-serialize v =
      after_head include_name 1 name (v ∷ []) rest _ short_name unnamed (omega arith)
        (bind_parsed (need 1) _ (v ∷ rest) (need_met 1 (v ∷ rest) (omega arith)))

  enough : (n v : ℕ) → n ≤ length (be_bytes n v ++ rest)
  enough n v = omega (arith, length-append (be_bytes n v) rest, length-be_bytes n v)

  some_bytes : (n v : ℕ) (bs : List ℕ) → 1 ≤ n → 1 ≤ length (be_bytes n v ++ bs)
  some_bytes n v bs h = omega (arith, length-append (be_bytes n v) bs, length-be_bytes n v)

  pub parse_int-serialize :
      (v : ℕ)
      → v < 2 ^ 32
      → parse_int include_name
          (not include_name)
          ((pre_serialize include_name 3 name ++ be_bytes 4 v) ++ rest)
        ≡ parsed (int name v) rest
  unfolding parse_int
  parse_int-serialize v h =
      after_head include_name 3 name (be_bytes 4 v) rest _ short_name unnamed
        (omega (arith, length-be_bytes 4 v))
        (bind_parsed (need 4) _ _ (need_met 4 _ (enough 4 v))
          ∙ bind_parsed (read_be 32 4 0) _ _ (read_number 32 4 v rest h (omega arith)))

  pub parse_short-serialize :
      (v : ℕ)
      → v < 2 ^ 16
      → parse_short include_name
          (not include_name)
          ((pre_serialize include_name 2 name ++ size_bytes v) ++ rest)
        ≡ parsed (short name v) rest
  unfolding parse_short
  parse_short-serialize v h = rw (size_bytes-be_bytes v) (
      after_head include_name 2 name (be_bytes 2 v) rest _ short_name unnamed
        (omega (arith, length-be_bytes 2 v))
        (bind_parsed (need 2) _ _ (need_met 2 _ (enough 2 v))
          ∙ bind_parsed (read_be 16 2 0) _ _ (read_number 16 2 v rest h (omega arith))))

  pub parse_long-serialize :
      (v : ℕ)
      → v < 2 ^ 64
      → parse_long include_name
          (not include_name)
          ((pre_serialize include_name 4 name ++ be_bytes 8 v) ++ rest)
        ≡ parsed (long name v) rest
  unfolding parse_long
  parse_long-serialize v h =
      (after_head include_name 4 name (be_bytes 8 v) rest _ short_name unnamed
        (omega (arith, length-be_bytes 8 v))
        (bind_parsed (need 8) _ _ (need_met 8 _ (enough 8 v))
          ∙ bind_parsed (read_be 64 8 0) _ _ (read_number 64 8 v rest h (omega arith))))

  pub parse_float-serialize :
      (v : ℕ)
      → v < 2 ^ 32
      → parse_float include_name
          (not include_name)
          ((pre_serialize include_name 5 name ++ push_reversed [] (le_bytes 4 v)) ++ rest)
        ≡ parsed (float name v) rest
  unfolding parse_float
  parse_float-serialize v h = rw (reversed_four v) (
      after_head include_name 5 name (be_bytes 4 v) rest _ short_name unnamed
        (omega (arith, length-be_bytes 4 v))
        (bind_parsed (need 4) _ _ (need_met 4 _ (enough 4 v))
          ∙ bind_parsed (read_or 32 4 0) _ _ (read_pattern 32 4 v rest h (omega arith))))

  pub parse_double-serialize :
      (v : ℕ)
      → v < 2 ^ 64
      → parse_double include_name
          (not include_name)
          ((pre_serialize include_name 6 name ++ push_reversed [] (le_bytes 8 v)) ++ rest)
        ≡ parsed (double name v) rest
  unfolding parse_double
  parse_double-serialize v h = rw (reversed_eight v) (
      after_head include_name 6 name (be_bytes 8 v) rest _ short_name unnamed
        (omega (arith, length-be_bytes 8 v))
        (bind_parsed (need 8) _ _ (need_met 8 _ (enough 8 v))
          ∙ bind_parsed (read_or 64 8 0) _ _ (read_pattern 64 8 v rest h (omega arith))))

  pub parse_string-serialize :
      (s : List ℕ)
      → length s < 2 ^ 16
      → parse_string include_name
          (not include_name)
          ((pre_serialize include_name 8 name ++ (size_bytes (length s) ++ s)) ++ rest)
        ≡ parsed (string name s) rest
  unfolding parse_string
  parse_string-serialize s h =
      after_head include_name 8 name (size_bytes (length s) ++ s) rest _ short_name unnamed
        (omega arith)
        (bind_parsed (need 2) _ _ (need_met 2 (size_bytes (length s) ++ (s ++ rest)) (omega arith))
          ∙ bind_parsed read_size _ _ (read_size-size_bytes (length s) (s ++ rest) h)
          ∙ bind_parsed (need (length s)) _ _
              (need_met (length s) (s ++ rest) (omega (arith, length-append s rest)))
          ∙ bind_parsed (read_bytes (length s)) _ _ (read_bytes-append s rest))

  no_reserve_error : (n : ℕ) (bs : List ℕ) → n < 2 ^ 31 → reserve n bs ≡ parsed tt bs
  unfolding reserve
  no_reserve_error n bs h = rw (lt→leb (2 ^ 31) n h)

  pub parse_byte_array-serialize :
      (vs : List ℕ)
      → length vs < 2 ^ 31
      → parse_byte_array include_name
          (not include_name)
          ((pre_serialize include_name 7 name ++ (be_bytes 4 (length vs) ++ vs)) ++ rest)
        ≡ parsed (byte_array name vs) rest
  unfolding parse_byte_array
  parse_byte_array-serialize vs h =
      after_head include_name 7 name (be_bytes 4 (length vs) ++ vs) rest _ short_name unnamed
        (some_bytes 4 (length vs) vs (omega arith))
        (rw (append_assoc (be_bytes 4 (length vs)) vs rest) (
          bind_parsed read_length _ _ (read_length-be_bytes (length vs) (vs ++ rest) (omega arith))
          ∙ bind_parsed (need_elements 1 (length vs)) _ _ (
              need_elements_met 1 (length vs) (vs ++ rest) h (omega arith)
                (omega (arith, length-append vs rest)))
          ∙ bind_parsed (reserve (length vs)) _ _ (no_reserve_error (length vs) (vs ++ rest) h)
          ∙ rw (rounds_small (length vs) h)
              (bind_parsed (read_bytes (length vs)) _ _ (read_bytes-append vs rest))))

  pub parse_int_array-serialize :
      (vs : List ℕ)
      → length vs < 2 ^ 29
      → All (λ v. (v < 2 ^ 32) × (v < 256 ^ 4)) vs
      → parse_int_array include_name (not include_name) (
          (pre_serialize include_name 11 name ++ (be_bytes 4 (length vs) ++ array_bytes 4 vs))
          ++ rest)
        ≡ parsed (int_array name vs) rest
  unfolding parse_int_array
  parse_int_array-serialize vs h fit =
      after_head include_name 11 name (be_bytes 4 (length vs) ++ array_bytes 4 vs) rest _ short_name
        unnamed (some_bytes 4 (length vs) (array_bytes 4 vs) (omega arith))
        (rw (append_assoc (be_bytes 4 (length vs)) (array_bytes 4 vs) rest) (
          bind_parsed read_length _ _
            (read_length-be_bytes (length vs) (array_bytes 4 vs ++ rest) (omega arith))
          ∙ bind_parsed (need_elements 4 (length vs)) _ _ (
              need_elements_met 4 (length vs) (array_bytes 4 vs ++ rest) (omega arith) (omega arith)
                (omega (arith, length-append (array_bytes 4 vs) rest, length-array_bytes 4 vs)))
          ∙ rw (rounds_small (length vs) (omega arith)) (
              bind_parsed (read_words 32 4 (length vs)) _ _
                (read_words-array_bytes 32 4 vs rest fit))))

  pub parse_long_array-serialize :
      (vs : List ℕ)
      → length vs < 2 ^ 28
      → All (λ v. (v < 2 ^ 64) × (v < 256 ^ 8)) vs
      → parse_long_array include_name (not include_name) (
          (pre_serialize include_name 12 name ++ (be_bytes 4 (length vs) ++ array_bytes 8 vs))
          ++ rest)
        ≡ parsed (long_array name vs) rest
  unfolding parse_long_array
  parse_long_array-serialize vs h fit =
      after_head include_name 12 name (be_bytes 4 (length vs) ++ array_bytes 8 vs) rest _ short_name
        unnamed (some_bytes 4 (length vs) (array_bytes 8 vs) (omega arith))
        (rw (append_assoc (be_bytes 4 (length vs)) (array_bytes 8 vs) rest) (
          bind_parsed read_length _ _
            (read_length-be_bytes (length vs) (array_bytes 8 vs ++ rest) (omega arith))
          ∙ bind_parsed (need_elements 8 (length vs)) _ _ (
              need_elements_met 8 (length vs) (array_bytes 8 vs ++ rest) (omega arith) (omega arith)
                (omega (arith, length-append (array_bytes 8 vs) rest, length-array_bytes 8 vs)))
          ∙ rw (rounds_small (length vs) (omega arith)) (
              bind_parsed (read_words 64 8 (length vs)) _ _
                (read_words-array_bytes 64 8 vs rest fit))))
