-- ===== src/Nbt/Reads.antt =====
-- What the parts of the parse functions read of what the serialize methods wrote.
use cubic_server.Common.{
  ℕ, zero, suc, ◌+◌, ◌*◌, ◌/◌, ◌%◌, ◌^◌, ◌≤◌, ◌<◌, ◌≡◌, refl, ap, sym, ◌∙◌, List, [], ◌∷◌, ◌++◌,
  append_assoc, arith, length, length-append, Bool, true, false, not, le→ltb, lt→leb, All,
  if◌then◌else◌, ◌==◌,
}
use cubic_server.Common.Words.{shl}
use cubic_server.Common.Bits.{disjoint-bit_or}
use cubic_server.Common.Digits.{pow256_pos}
use cubic_server.Protocol.Add.{be_bytes, le_bytes, push_reversed}
use cubic_server.Protocol.RoundTrip.Fixed.{length-be_bytes, digits_join, le-mul_pos}
use cubic_server.Nbt.Tag.{Tag}
use cubic_server.Nbt.Serialize.{size_bytes, pre_serialize, array_bytes}
use cubic_server.Nbt.Parser.{
  Parsed, parsed, Parse, bind_parsed, need, next, read_be, read_size, read_bytes, read_words,
  parse_name, expect_type, tag_head, read_length, need_elements, rounds, ◌>>=◌, ◌>>◌, pure,
}
use Prim.Native.Nat.{bit_or}
use native.Mathlib.Nat.{mod-eq_of_lt}

pub need_met : (n : ℕ) (bs : List ℕ) → n ≤ length bs → need n bs ≡ parsed tt bs
unfolding need
need_met n bs h = rw (le→ltb (length bs) n h)

be_round : (w a b : ℕ) → b < 256 → a * 256 + b < 2 ^ w → bit_or (shl w a 8) b ≡ a * 256 + b
be_round w a b hb fits = omega (
  arith,
  ap (λ (t : ℕ). bit_or t b) (mod-eq_of_lt {n = a * 2 ^ 8} {m = 2 ^ w} (omega arith)),
  disjoint-bit_or 8 a b hb,
)

head_fits :
    (w n a v : ℕ) → a * 256 ^ suc n + v % 256 ^ suc n < 2 ^ w → a * 256 + v / 256 ^ n % 256 < 2 ^ w
head_fits w n a v fits =
    omega
      (arith, digits_join n a v, le-mul_pos (a * 256 + v / 256 ^ n % 256) (256 ^ n) (pow256_pos n))

read_be-be_bytes :
    (w n a v : ℕ) (rest : List ℕ)
    → a * 256 ^ n + v % 256 ^ n < 2 ^ w
    → read_be w n a (be_bytes n v ++ rest) ≡ parsed (a * 256 ^ n + v % 256 ^ n) rest
unfolding be_bytes read_be next
read_be-be_bytes w zero a v rest fits = ground arith
read_be-be_bytes w (suc n) a v rest fits =
    rw
      (be_round w a (v / 256 ^ n % 256) (omega arith) (head_fits w n a v fits), ← digits_join n a v)
      (read_be-be_bytes w n (a * 256 + v / 256 ^ n % 256) v rest (rw digits_join fits))

pub read_number :
    (w n v : ℕ) (rest : List ℕ)
    → v < 2 ^ w
    → v < 256 ^ n
    → read_be w n 0 (be_bytes n v ++ rest) ≡ parsed v rest
read_number w n v rest hw hn =
    read_be-be_bytes w n 0 v rest (rw (mod-eq_of_lt hn) (omega arith))
    ∙ ap (λ (t : ℕ). parsed t rest) (omega (arith, mod-eq_of_lt hn))

pub reversed_four : (v : ℕ) → push_reversed [] (le_bytes 4 v) ≡ be_bytes 4 v
unfolding push_reversed le_bytes be_bytes
reversed_four v = ground arith

pub reversed_eight : (v : ℕ) → push_reversed [] (le_bytes 8 v) ≡ be_bytes 8 v
unfolding push_reversed le_bytes be_bytes
reversed_eight v = ground arith

pub read_size-size_bytes :
    (n : ℕ) (rest : List ℕ) → n < 2 ^ 16 → read_size (size_bytes n ++ rest) ≡ parsed n rest
unfolding read_size next
read_size-size_bytes n rest h = ground (arith, disjoint-bit_or 8 (n / 256) (n % 256) (omega arith))

pub read_bytes-append : (s rest : List ℕ) → read_bytes (length s) (s ++ rest) ≡ parsed s rest
unfolding read_bytes next
read_bytes-append [] rest = refl
read_bytes-append (b ∷ s) rest = bind_parsed (read_bytes (length s)) _ _ (read_bytes-append s rest)

pub read_words-array_bytes :
    (w k : ℕ) (vs rest : List ℕ)
    → All (λ v. (v < 2 ^ w) × (v < 256 ^ k)) vs
    → read_words w k (length vs) (array_bytes k vs ++ rest) ≡ parsed vs rest
unfolding read_words array_bytes
read_words-array_bytes w k [] rest h = refl
read_words-array_bytes w k (v ∷ vs) rest h =
    rw (append_assoc (be_bytes k v) (array_bytes k vs) rest) (
      bind_parsed (read_be w k 0) _ _ (read_number w k v (array_bytes k vs ++ rest) h.0.0 h.0.1)
      ∙ bind_parsed (read_words w k (length vs)) _ _ (read_words-array_bytes w k vs rest h.1))

nonzero : (n : ℕ) → (suc n == 0) ≡ false
nonzero n = ground arith

sized_name :
    (name rest : List ℕ)
    → (if length name == 0 then pure [] else (need (length name) >> read_bytes (length name)))
        (name ++ rest)
      ≡ parsed name rest
sized_name [] rest = refl
sized_name (b ∷ name) rest = rw (nonzero (length name)) (
    bind_parsed (need (suc (length name))) _ _
      (need_met (suc (length name)) (b ∷ name ++ rest) (omega (arith, length-append name rest)))
    ∙ read_bytes-append (b ∷ name) rest)

parse_name-append :
    (name rest : List ℕ)
    → length name < 2 ^ 16
    → parse_name (size_bytes (length name) ++ (name ++ rest)) ≡ parsed name rest
unfolding parse_name
parse_name-append name rest h =
    bind_parsed (need 2) _ _ (need_met 2 (size_bytes (length name) ++ (name ++ rest)) (omega arith))
    ∙ bind_parsed read_size _ _ (read_size-size_bytes (length name) (name ++ rest) h)
    ∙ sized_name name rest

pub read_length-be_bytes :
    (n : ℕ) (rest : List ℕ) → n < 2 ^ 32 → read_length (be_bytes 4 n ++ rest) ≡ parsed n rest
unfolding read_length
read_length-be_bytes n rest h =
    bind_parsed (need 4) _ _ (
      need_met 4 (be_bytes 4 n ++ rest)
        (omega (arith, length-append (be_bytes 4 n) rest, length-be_bytes 4 n)))
    ∙ read_number 32 4 n rest h (omega arith)

same_type : (type : ℕ) (rest : List ℕ) → expect_type type (type ∷ rest) ≡ parsed tt rest
unfolding expect_type
same_type type rest = ground arith

-- The tag's type and name, where they were written: in a list neither is.
tag_head-pre_serialize :
    (include_name : Bool) (type : ℕ) (name rest : List ℕ)
    → length name < 2 ^ 16
    → (include_name ≡ false → name ≡ [])
    → 1 ≤ length rest
    → tag_head type include_name (not include_name) (pre_serialize include_name type name ++ rest)
      ≡ parsed name rest
unfolding tag_head
tag_head-pre_serialize true type name rest h unnamed more =
    bind_parsed (need 1) _ _
      (need_met 1 (type ∷ size_bytes (length name) ++ name ++ rest) (omega arith))
    ∙ bind_parsed (expect_type type) _ _ (same_type type (size_bytes (length name) ++ name ++ rest))
    ∙ parse_name-append name rest h
tag_head-pre_serialize false type name rest h unnamed more =
    bind_parsed (need 1) _ rest (need_met 1 rest more)
    ∙ ap (λ (t : List ℕ). parsed t rest) (sym (unnamed refl))

-- What follows the head of a tag reads the body of the tag.
pub after_head :
    (include_name : Bool) (type : ℕ) (name body rest : List ℕ) (f : List ℕ → Parse Tag)
    {r : Parsed Tag}
    → length name < 2 ^ 16
    → (include_name ≡ false → name ≡ [])
    → 1 ≤ length body
    → f name (body ++ rest) ≡ r
    → (tag_head type include_name (not include_name) >>= f)
        ((pre_serialize include_name type name ++ body) ++ rest)
      ≡ r
after_head include_name type name body rest f h unnamed more e =
    rw (append_assoc (pre_serialize include_name type name) body rest) (
      bind_parsed (tag_head type include_name (not include_name)) f _ (
        tag_head-pre_serialize include_name type name (body ++ rest) h unnamed
          (omega (arith, length-append body rest)))
      ∙ e)

pub size_bytes-be_bytes : (v : ℕ) → size_bytes v ≡ be_bytes 2 v
unfolding be_bytes
size_bytes-be_bytes v = ground arith

-- The test in front of an array lets a length through that the input holds.
pub need_elements_met :
    (width n : ℕ) (bs : List ℕ)
    → n < 2 ^ 31
    → n * width < 2 ^ 31
    → n * width ≤ length bs
    → need_elements width n bs ≡ parsed tt bs
unfolding need_elements
need_elements_met width n bs small fits h =
    rw (lt→leb (2 ^ 31) n small, lt→leb (2 ^ 31) (n * width) fits) (need_met (n * width) bs h)

pub rounds_small : (n : ℕ) → n < 2 ^ 31 → rounds n ≡ n
rounds_small n h = rw (lt→leb (2 ^ 31) n h)

pub length-array_bytes : (k : ℕ) (vs : List ℕ) → length (array_bytes k vs) ≡ length vs * k
unfolding array_bytes
length-array_bytes k [] = omega arith
length-array_bytes k (v ∷ vs) = omega (
  arith,
  length-append (be_bytes k v) (array_bytes k vs),
  length-be_bytes k v,
  length-array_bytes k vs,
)
