-- ===== src/Nbt/Overflow.antt =====
-- cubic-server/nbt.cpp: the lengths of the arrays, which the parser multiplies in an int32_t.
use cubic_server.Common.{
  ℕ, ◌*◌, ◌^◌, ◌≤◌, ◌<◌, ◌≡◌, refl, ◌∙◌, arith, true, false, List, [], ◌++◌, length-append,
  signed_overflow, lt→leb, le→leb,
}
use cubic_server.Protocol.Add.{be_bytes}
use cubic_server.Protocol.RoundTrip.Fixed.{length-be_bytes}
use cubic_server.Nbt.Parser.{
  parsed, thrown, need, tag_head, read_length, need_elements, bind_parsed, ◌>>=◌, ◌>>◌, Parse,
}
use cubic_server.Nbt.Parse.{parse_int_array, parse_long_array}
use cubic_server.Nbt.Reads.{need_met, read_length-be_bytes}

bind_thrown {ℓ κ} :
    {A : Type ℓ} {B : Type κ} (m : Parse A) (f : A → Parse B) (bs : List ℕ)
    → m bs ≡ thrown signed_overflow
    → (m >>= f) bs ≡ thrown signed_overflow
bind_thrown m f bs e = rw (e, ◌>>=◌) refl

need_elements-overflow :
    (width size : ℕ) (rest : List ℕ)
    → size < 2 ^ 31
    → 2 ^ 31 ≤ size * width
    → need_elements width size rest ≡ thrown signed_overflow
unfolding need_elements
need_elements-overflow width size rest h p =
    rw (lt→leb (2 ^ 31) size h, le→leb (2 ^ 31) (size * width) p) refl

-- In a list there is no type byte and no name.
bare_head :
    (type size : ℕ) (rest : List ℕ)
    → tag_head type false true (be_bytes 4 size ++ rest) ≡ parsed [] (be_bytes 4 size ++ rest)
unfolding tag_head
bare_head type size rest = bind_parsed (need 1) _ (be_bytes 4 size ++ rest) (
    need_met 1 (be_bytes 4 size ++ rest)
      (omega (arith, length-append (be_bytes 4 size) rest, length-be_bytes 4 size)))

-- In a list, an array of int32_t or int64_t that announces from 2 ^ 29 to 2 ^ 31 - 1 elements
-- makes the test of the end overflow an int32_t, whatever follows.
pub arrays_overflow :
    (size : ℕ) (rest : List ℕ)
    → 2 ^ 29 ≤ size
    → size < 2 ^ 31
    → (parse_int_array false true (be_bytes 4 size ++ rest) ≡ thrown signed_overflow)
      × (parse_long_array false true (be_bytes 4 size ++ rest) ≡ thrown signed_overflow)
unfolding parse_int_array parse_long_array
arrays_overflow size rest p h = (overflows 11 4 _ (omega arith), overflows 12 8 _ (omega arith))
  where
    overflows :
        {B : Type 0} (type width : ℕ) (f : List ℕ → ℕ → Parse B)
        → 2 ^ 31 ≤ size * width
        → (tag_head type false true >>= λ name.
              read_length >>= λ n. need_elements width n >> f name n)
            (be_bytes 4 size ++ rest)
          ≡ thrown signed_overflow
    overflows type width f q =
        bind_parsed (tag_head type false true) _ (be_bytes 4 size ++ rest)
          (bare_head type size rest)
        ∙ bind_parsed read_length _ (be_bytes 4 size ++ rest)
            (read_length-be_bytes size rest (omega arith))
        ∙ bind_thrown (need_elements width size) _ rest (need_elements-overflow width size rest h q)
