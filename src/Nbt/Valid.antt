-- ===== src/Nbt/Valid.antt =====
-- The tags that the binary form can hold.
use cubic_server.Common.{ℕ, ◌≡◌, ◌^◌, ◌<◌, List, [], length, All}
use cubic_server.Nbt.Tag.{
  Tag, Tags, byte, short, int, long, float, double, byte_array, string, list, compound, int_array,
  long_array, nil, cons, type_of, name_of, count_tags,
}

abbrev pub ValidName : List ℕ → Type 0
ValidName n = length n < 2 ^ 16

abbrev pub first_type : Tags → ℕ
first_type nil = 0
first_type (cons t ts) = type_of t

-- Numbers are words of their width and lengths fit their fields. An array of int32_t has fewer than
-- 2 ^ 29 elements and one of int64_t fewer than 2 ^ 28, since the parser multiplies its length in
-- an int32_t. A list has an element at least, and its elements are of one type and have no name.
abbrev mutual
  pub Valid : Tag → Type 0
  Valid (byte n v) = ValidName n × (v < 2 ^ 8)
  Valid (short n v) = ValidName n × (v < 2 ^ 16)
  Valid (int n v) = ValidName n × (v < 2 ^ 32)
  Valid (long n v) = ValidName n × (v < 2 ^ 64)
  Valid (float n v) = ValidName n × (v < 2 ^ 32)
  Valid (double n v) = ValidName n × (v < 2 ^ 64)
  Valid (byte_array n vs) = ValidName n × (length vs < 2 ^ 31)
  Valid (string n s) = ValidName n × (length s < 2 ^ 16)
  Valid (list n ts) =
      ValidName n × (0 < count_tags ts) × (count_tags ts < 2 ^ 31) × ValidItems (first_type ts) ts
  Valid (compound n ts) = ValidName n × ValidEntries ts
  Valid (int_array n vs) = ValidName n × (length vs < 2 ^ 29) × All (λ v. v < 2 ^ 32) vs
  Valid (long_array n vs) = ValidName n × (length vs < 2 ^ 28) × All (λ v. v < 2 ^ 64) vs

  pub ValidItems : ℕ → Tags → Type 0
  ValidItems type nil = Unit {0}
  ValidItems type (cons t ts) = (type_of t ≡ type) × (name_of t ≡ []) × Valid t × ValidItems type ts

  pub ValidEntries : Tags → Type 0
  ValidEntries nil = Unit {0}
  ValidEntries (cons t ts) = Valid t × ValidEntries ts
