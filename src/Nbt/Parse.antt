-- ===== src/Nbt/Parse.antt =====
-- The parse functions of nbt.cpp, one for each kind of tag, and `parse`, which reads the type.
use cubic_server.Common.{
  ℕ, zero, suc, ◌+◌, ◌*◌, ◌^◌, [], ◌∷◌, Bool, true, false, length, leb, ◌==◌, if◌then◌else◌,
  length_error,
}
use cubic_server.Nbt.Tag.{
  Tag, Tags, byte, short, int, long, float, double, byte_array, string, list, compound, int_array,
  long_array, nil, cons, TagType, byte_type, short_type, int_type, long_type, float_type,
  double_type, byte_array_type, string_type, list_type, compound_type, int_array_type,
  long_array_type, tag_type,
}
use cubic_server.Nbt.Parser.{
  parsed, null, thrown, stuck, Parse, pure, ◌>>=◌, ◌>>◌, need, next, read_be, read_or, read_size,
  read_bytes, read_words, tag_head, read_length, rounds, need_elements,
}

unfoldable pub parse_byte : Bool → Bool → Parse Tag
parse_byte include_name in_list = do
  name ← tag_head 1 include_name in_list
  need 1
  value ← next
  pure (byte name value)

unfoldable pub parse_short : Bool → Bool → Parse Tag
parse_short include_name in_list = do
  name ← tag_head 2 include_name in_list
  need 2
  value ← read_be 16 2 0
  pure (short name value)

unfoldable pub parse_int : Bool → Bool → Parse Tag
parse_int include_name in_list = do
  name ← tag_head 3 include_name in_list
  need 4
  value ← read_be 32 4 0
  pure (int name value)

unfoldable pub parse_long : Bool → Bool → Parse Tag
parse_long include_name in_list = do
  name ← tag_head 4 include_name in_list
  need 8
  value ← read_be 64 8 0
  pure (long name value)

unfoldable pub parse_float : Bool → Bool → Parse Tag
parse_float include_name in_list = do
  name ← tag_head 5 include_name in_list
  need 4
  value ← read_or 32 4 0
  pure (float name value)

unfoldable pub parse_double : Bool → Bool → Parse Tag
parse_double include_name in_list = do
  name ← tag_head 6 include_name in_list
  need 8
  value ← read_or 64 8 0
  pure (double name value)

-- `data.reserve(size)` throws for a negative size.
unfoldable pub reserve : ℕ → Parse (Unit {0})
reserve size = if leb (2 ^ 31) size then (λ bs. thrown length_error) else pure tt

unfoldable pub parse_byte_array : Bool → Bool → Parse Tag
parse_byte_array include_name in_list = do
  name ← tag_head 7 include_name in_list
  size ← read_length
  need_elements 1 size
  reserve size
  values ← read_bytes (rounds size)
  pure (byte_array name values)

unfoldable pub parse_string : Bool → Bool → Parse Tag
parse_string include_name in_list = do
  name ← tag_head 8 include_name in_list
  need 2
  size ← read_size
  need size
  text ← read_bytes size
  pure (string name text)

unfoldable pub parse_int_array : Bool → Bool → Parse Tag
parse_int_array include_name in_list = do
  name ← tag_head 11 include_name in_list
  size ← read_length
  need_elements 4 size
  values ← read_words 32 4 (rounds size)
  pure (int_array name values)

unfoldable pub parse_long_array : Bool → Bool → Parse Tag
parse_long_array include_name in_list = do
  name ← tag_head 12 include_name in_list
  size ← read_length
  need_elements 8 size
  values ← read_words 64 8 (rounds size)
  pure (long_array name values)

-- `items type n` is the loop over the elements of a list, `entries` that over a compound's.
unfoldable pub parse_list : (ℕ → ℕ → Parse Tags) → Bool → Bool → Parse Tag
parse_list items include_name in_list = do
  name ← tag_head 9 include_name in_list
  need 1
  type ← next
  size ← read_length
  values ← items type (rounds size)
  pure (list name values)

unfoldable pub parse_compound : Parse Tags → Bool → Bool → Parse Tag
parse_compound entries include_name in_list = do
  name ← tag_head 10 include_name in_list
  values ← entries
  pure (compound name values)

-- The `switch` of `parse` and of `parseList`.
unfoldable pub dispatch : TagType → (ℕ → ℕ → Parse Tags) → Parse Tags → Bool → Bool → Parse Tag
dispatch byte_type items entries include_name in_list = parse_byte include_name in_list
dispatch short_type items entries include_name in_list = parse_short include_name in_list
dispatch int_type items entries include_name in_list = parse_int include_name in_list
dispatch long_type items entries include_name in_list = parse_long include_name in_list
dispatch float_type items entries include_name in_list = parse_float include_name in_list
dispatch double_type items entries include_name in_list = parse_double include_name in_list
dispatch byte_array_type items entries include_name in_list = parse_byte_array include_name in_list
dispatch string_type items entries include_name in_list = parse_string include_name in_list
dispatch list_type items entries include_name in_list = parse_list items include_name in_list
dispatch compound_type items entries include_name in_list =
    parse_compound entries include_name in_list
dispatch int_array_type items entries include_name in_list = parse_int_array include_name in_list
dispatch long_array_type items entries include_name in_list = parse_long_array include_name in_list
dispatch _ items entries include_name in_list = λ bs. null

unfoldable mutual
  pub parse_tagged : ℕ → ℕ → Bool → Bool → Parse Tag
  parse_tagged zero type include_name in_list bs = stuck
  parse_tagged (suc fuel) type include_name in_list bs =
      dispatch (tag_type type) (parse_items fuel) (parse_entries fuel) include_name in_list bs

  pub parse_items : ℕ → ℕ → ℕ → Parse Tags
  parse_items zero type n bs = stuck
  parse_items (suc fuel) type zero bs = parsed nil bs
  parse_items (suc fuel) type (suc n) bs =
      (do
        value ← parse_tagged fuel type false true
        values ← parse_items fuel type n
        pure (cons value values))
        bs

  pub parse_entries : ℕ → Parse Tags
  parse_entries zero bs = stuck
  parse_entries (suc fuel) [] = null
  parse_entries (suc fuel) (b ∷ rest) =
      let more =
        (do
          value ← parse_tagged fuel b true false
          values ← parse_entries fuel
          pure (cons value values))
          (b ∷ rest) in
      if b == 0 then parsed nil rest else more

-- `parse(at, end)`, with more fuel than the input can use.
unfoldable pub parse : Parse Tag
parse [] = null
parse (b ∷ rest) = parse_tagged (2 * length (b ∷ rest) + 1) b true false (b ∷ rest)
