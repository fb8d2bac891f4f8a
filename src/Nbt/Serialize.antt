-- ===== src/Nbt/Serialize.antt =====
-- The `serialize` methods of nbt.hpp: the bytes that a call appends to its buffer, or its exception.
use cubic_server.Common.{
  ℕ, ◌%◌, List, [], ◌∷◌, ◌++◌, Bool, true, false, length, ◌==◌, if◌then◌else◌, Result, ok, err,
  type_mismatch, undefined, ◌>>=◌,
}
use cubic_server.Common.Words.{shr}
use cubic_server.Protocol.Add.{be_bytes, le_bytes, push_reversed}
use cubic_server.Nbt.Tag.{
  Tag, Tags, byte, short, int, long, float, double, byte_array, string, list, compound, int_array,
  long_array, nil, cons, type_of, count_tags,
}

-- A length in two bytes: `length() >> 8`, then `length() & 0xFF`.
abbrev pub size_bytes : ℕ → List ℕ
size_bytes n = (shr n 8 % 256) ∷ (n % 256) ∷ []

-- `Base::preSerialize`.
abbrev pub pre_serialize : Bool → ℕ → List ℕ → List ℕ
pre_serialize include_name type name =
    if include_name then type ∷ size_bytes (length name) ++ name else []

-- The elements of an array, n bytes each.
unfoldable pub array_bytes : ℕ → List ℕ → List ℕ
array_bytes n [] = []
array_bytes n (v ∷ vs) = be_bytes n v ++ array_bytes n vs

-- The type of the first element, and the number of elements. `_value[0]` of an empty list is a read
-- outside the vector.
abbrev list_head : Tags → Result (List ℕ)
list_head nil = err undefined
list_head (cons t ts) = ok (type_of t ∷ be_bytes 4 (count_tags (cons t ts)))

unfoldable mutual
  pub serialize : Bool → Tag → Result (List ℕ)
  serialize include_name (byte n v) = ok (pre_serialize include_name 1 n ++ (v ∷ []))
  serialize include_name (short n v) = ok (pre_serialize include_name 2 n ++ size_bytes v)
  serialize include_name (int n v) = ok (pre_serialize include_name 3 n ++ be_bytes 4 v)
  serialize include_name (long n v) = ok (pre_serialize include_name 4 n ++ be_bytes 8 v)
  serialize include_name (float n v) =
      ok (pre_serialize include_name 5 n ++ push_reversed [] (le_bytes 4 v))
  serialize include_name (double n v) =
      ok (pre_serialize include_name 6 n ++ push_reversed [] (le_bytes 8 v))
  serialize include_name (byte_array n vs) =
      ok (pre_serialize include_name 7 n ++ (be_bytes 4 (length vs) ++ vs))
  serialize include_name (string n s) =
      ok (pre_serialize include_name 8 n ++ (size_bytes (length s) ++ s))
  serialize include_name (list n ts) = do
    head ← list_head ts
    items ← serialize_items 0 ts
    ok (pre_serialize include_name 9 n ++ (head ++ items))
  serialize include_name (compound n ts) = do
    body ← serialize_entries ts
    ok (pre_serialize include_name 10 n ++ body)
  serialize include_name (int_array n vs) =
      ok (pre_serialize include_name 11 n ++ (be_bytes 4 (length vs) ++ array_bytes 4 vs))
  serialize include_name (long_array n vs) =
      ok (pre_serialize include_name 12 n ++ (be_bytes 4 (length vs) ++ array_bytes 8 vs))

  -- The entries of a compound, each with its name, and the byte TAG_End.
  pub serialize_entries : Tags → Result (List ℕ)
  serialize_entries nil = ok (0 ∷ [])
  serialize_entries (cons t ts) = do
    entry ← serialize true t
    rest ← serialize_entries ts
    ok (entry ++ rest)

  -- `current` is TagType::End, which is 0, before the first round, and the first type after it.
  pub serialize_items : ℕ → Tags → Result (List ℕ)
  serialize_items current nil = ok []
  serialize_items current (cons t ts) =
      let current' = if current == 0 then type_of t else current in
      if current' == type_of t
      then (do item ← serialize false t; rest ← serialize_items current' ts; ok (item ++ rest))
      else err type_mismatch
