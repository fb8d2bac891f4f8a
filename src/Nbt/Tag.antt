-- ===== src/Nbt/Tag.antt =====
-- The classes of nbt.hpp: one constructor for each class below `Base`. A name or a text is the list of its
-- bytes; numbers, floats included, are bit patterns.
use cubic_server.Common.{ℕ, zero, suc, List}

mutual
  pub data Tag : Type 0 where
    byte : List ℕ → ℕ → Tag
    short : List ℕ → ℕ → Tag
    int : List ℕ → ℕ → Tag
    long : List ℕ → ℕ → Tag
    float : List ℕ → ℕ → Tag
    double : List ℕ → ℕ → Tag
    byte_array : List ℕ → List ℕ → Tag
    string : List ℕ → List ℕ → Tag
    list : List ℕ → Tags → Tag
    compound : List ℕ → Tags → Tag
    int_array : List ℕ → List ℕ → Tag
    long_array : List ℕ → List ℕ → Tag

  pub data Tags : Type 0 where
    nil : Tags
    cons : Tag → Tags → Tags

-- `TagType`, numbered from 0 in the order of the source; `unknown` is any other number.
pub data TagType : Type 0 where
  end_type byte_type short_type int_type long_type float_type double_type : TagType
  byte_array_type string_type list_type compound_type int_array_type long_array_type : TagType
  unknown : TagType

-- The member `_type` of a tag, as the byte that is written.
abbrev pub type_of : Tag → ℕ
type_of (byte n v) = 1
type_of (short n v) = 2
type_of (int n v) = 3
type_of (long n v) = 4
type_of (float n v) = 5
type_of (double n v) = 6
type_of (byte_array n v) = 7
type_of (string n v) = 8
type_of (list n v) = 9
type_of (compound n v) = 10
type_of (int_array n v) = 11
type_of (long_array n v) = 12

-- `getName`.
abbrev pub name_of : Tag → List ℕ
name_of (byte n v) = n
name_of (short n v) = n
name_of (int n v) = n
name_of (long n v) = n
name_of (float n v) = n
name_of (double n v) = n
name_of (byte_array n v) = n
name_of (string n v) = n
name_of (list n v) = n
name_of (compound n v) = n
name_of (int_array n v) = n
name_of (long_array n v) = n

-- A byte as the `TagType` that the parser's `switch` compares it with.
abbrev pub tag_type : ℕ → TagType
tag_type zero = end_type
tag_type (suc zero) = byte_type
tag_type (suc (suc zero)) = short_type
tag_type (suc (suc (suc zero))) = int_type
tag_type (suc (suc (suc (suc zero)))) = long_type
tag_type (suc (suc (suc (suc (suc zero))))) = float_type
tag_type (suc (suc (suc (suc (suc (suc zero)))))) = double_type
tag_type (suc (suc (suc (suc (suc (suc (suc zero))))))) = byte_array_type
tag_type (suc (suc (suc (suc (suc (suc (suc (suc zero)))))))) = string_type
tag_type (suc (suc (suc (suc (suc (suc (suc (suc (suc zero))))))))) = list_type
tag_type (suc (suc (suc (suc (suc (suc (suc (suc (suc (suc zero)))))))))) = compound_type
tag_type (suc (suc (suc (suc (suc (suc (suc (suc (suc (suc (suc zero))))))))))) = int_array_type
tag_type (suc (suc (suc (suc (suc (suc (suc (suc (suc (suc (suc (suc zero)))))))))))) =
    long_array_type
tag_type _ = unknown

abbrev pub count_tags : Tags → ℕ
count_tags nil = 0
count_tags (cons t ts) = suc (count_tags ts)
