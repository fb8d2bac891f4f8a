-- ===== src/Nbt/Parser.antt =====
-- The parts that the parse functions of nbt.cpp share. A parse function moves `at` towards `end`, which
-- points at the last byte: its argument is the list of the bytes from `at` to `end`, both included.
use cubic_server.Common.{
  ℕ, zero, suc, ◌+◌, ◌-◌, ◌*◌, ◌^◌, List, [], ◌∷◌, Bool, length, ltb, leb, ◌==◌, if◌then◌else◌,
  Exception, undefined, ◌≡◌, signed_overflow,
}
use cubic_server.Common.Words.{shl}
use Prim.Native.Nat.{bit_or}

-- `null` is the result `nullptr`. `stuck` is no result of the code: the fuel of the model ran out.
pub data Parsed {ℓ} (A : Type ℓ) : Type ℓ where
  parsed : A → List ℕ → Parsed A
  null : Parsed A
  thrown : Exception → Parsed A
  stuck : Parsed A

abbrev pub Parse {ℓ} : Type ℓ → Type ℓ
Parse A = List ℕ → Parsed A

abbrev pub pure {ℓ} : {A : Type ℓ} → A → Parse A
pure a bs = parsed a bs

infixl 5 ◌>>=◌ ◌>>◌
abbrev pub ◌>>=◌ {ℓ κ} : {A : Type ℓ} {B : Type κ} → Parse A → (A → Parse B) → Parse B
◌>>=◌ m f bs = elim (m bs) [
  | parsed a rest ↦ f a rest
  | null ↦ null
  | thrown e ↦ thrown e
  | stuck ↦ stuck
]

abbrev pub ◌>>◌ {ℓ} : {B : Type ℓ} → Parse (Unit {0}) → Parse B → Parse B
m >> k = m >>= λ _. k

-- `if (end - at < n - 1) return nullptr;`
unfoldable pub need : ℕ → Parse (Unit {0})
need n bs = if ltb (length bs) n then null else parsed tt bs

-- `*at++`
unfoldable pub next : Parse ℕ
next [] = thrown undefined
next (b ∷ rest) = parsed b rest

-- `for (i = 0; i < n; i++) value = (value << 8) | *at++;` on a w-bit value.
unfoldable pub read_be : ℕ → ℕ → ℕ → Parse ℕ
read_be w zero value = pure value
read_be w (suc n) value = do b ← next; read_be w n (bit_or (shl w value 8) b)

-- `for (int i = n - 1; i >= 0; i--) val.value |= ((uint32_t) (*at++)) << (i * 8);`
unfoldable pub read_or : ℕ → ℕ → ℕ → Parse ℕ
read_or w zero value = pure value
read_or w (suc i) value = do b ← next; read_or w i (bit_or value (shl w b (i * 8)))

-- `(*at << 8) | at[1]` as a uint16_t, and `at += 2`.
unfoldable pub read_size : Parse ℕ
read_size = do hi ← next; lo ← next; pure (bit_or (shl 16 hi 8) lo)

-- n rounds of `push_back(*at++)`.
unfoldable pub read_bytes : ℕ → Parse (List ℕ)
read_bytes zero = pure []
read_bytes (suc n) = do b ← next; bs ← read_bytes n; pure (b ∷ bs)

-- n rounds that each read a number of k bytes.
unfoldable pub read_words : ℕ → ℕ → ℕ → Parse (List ℕ)
read_words w k zero = pure []
read_words w k (suc n) = do v ← read_be w k 0; vs ← read_words w k n; pure (v ∷ vs)

-- `parseName`: both of its failures make the caller return `nullptr`.
unfoldable pub parse_name : Parse (List ℕ)
parse_name = do
  need 2
  size ← read_size
  if size == 0 then pure [] else (need size >> read_bytes size)

-- `if (*at != type) return nullptr; at++;`
unfoldable pub expect_type : ℕ → Parse (Unit {0})
expect_type type [] = thrown undefined
expect_type type (b ∷ rest) = if b == type then parsed tt rest else null

-- The way every parse function begins: the test of the end, the type byte unless the tag stands in
-- a list, and GET_NAME.
unfoldable pub tag_head : ℕ → Bool → Bool → Parse (List ℕ)
tag_head type include_name in_list = do
  need 1
  if in_list then pure tt else expect_type type
  if include_name then parse_name else pure []

-- An int32_t length in four bytes, still as its bit pattern.
unfoldable pub read_length : Parse ℕ
read_length = do need 4; read_be 32 4 0

-- The number of rounds of `for (int i = 0; i < size; i++)`.
abbrev pub rounds : ℕ → ℕ
rounds size = if leb (2 ^ 31) size then 0 else size

-- `if (end - at < size * width - 1) return nullptr;` for a signed `size`: the product, or the
-- difference, may leave the range of int32_t; a negative size passes.
unfoldable pub need_elements : ℕ → ℕ → Parse (Unit {0})
need_elements width size bs =
    if leb (2 ^ 31) size
    then (if ltb (2 ^ 31) ((2 ^ 32 - size) * width + 1)
        then thrown signed_overflow
        else parsed tt bs)
    else if leb (2 ^ 31) (size * width)
    then thrown signed_overflow
    else need (size * width) bs

-- A step that succeeds hands its value and the rest of the input on.
pub bind_parsed {ℓ κ} :
    {A : Type ℓ} {B : Type κ} (m : Parse A) (f : A → Parse B) (bs : List ℕ) {a : A} {rest : List ℕ}
    → m bs ≡ parsed a rest
    → (m >>= f) bs ≡ f a rest
bind_parsed m f bs e = rw (e, ◌>>=◌)
