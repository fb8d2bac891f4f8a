-- ===== src/Protocol/RoundTrip/Values.antt =====
-- Strings, slots, positions, UUIDs, floats and arrays.
use cubic_server.Common.{
  ℕ, ◌/◌, ◌%◌, ◌^◌, ◌≤◌, ◌<◌, ◌≡◌, refl, ◌∙◌, List, [], ◌∷◌, ◌++◌, append_assoc, arith,
  if◌then◌else◌, length, length-append, take-length-append, drop-length-append, ok, Bool, true,
  false, le→ltb, lt→leb,
}
use cubic_server.Common.Bits.{bit_or_disjoint}
use cubic_server.Protocol.Types.{Slot, U128}
use cubic_server.Protocol.Cursor.{bind_ok}
use cubic_server.Protocol.Add.{
  be_bytes, add_boolean, add_short, add_int, add_long, add_var_int, add_float, add_double,
  add_sized_string, add_string, max_string_size, add_slot, add_uuid,
}
use cubic_server.Protocol.Pop.{
  pop_byte, pop_boolean, pop_short, pop_int, pop_long, pop_var_int, pop_string, pop_slot,
  pop_slot_body, no_slot, pop_uuid_words, pop_uuid, pop_float, pop_double,
}
use cubic_server.Protocol.RoundTrip.Fixed.{length-be_bytes, pop_be-be_bytes}
use cubic_server.Protocol.RoundTrip.VarInt.{add_var_int-var_bytes, pop_var_int-add_var_int}

enough_bytes : (n v : ℕ) (rest : List ℕ) → n ≤ length (be_bytes n v ++ rest)
enough_bytes n v rest = omega (arith, length-append (be_bytes n v) rest, length-be_bytes n v)

add_short-append : (out : List ℕ) (v : ℕ) → add_short out v ≡ out ++ add_short [] v
unfolding add_short
add_short-append out v = refl

add_long-append : (out : List ℕ) (v : ℕ) → add_long out v ≡ out ++ add_long [] v
unfolding add_long
add_long-append out v = refl

length-add_long : (v : ℕ) → length (add_long [] v) ≡ 8
unfolding add_long
length-add_long v = length-be_bytes 8 v

pub add_var_int-append :
    (out : List ℕ) (v : ℕ) → v < 2 ^ 64 → add_var_int out v ≡ out ++ add_var_int [] v
add_var_int-append out v h = rw (add_var_int-var_bytes out v h, add_var_int-var_bytes [] v h)

-- A 32-bit word that addInt wrote is read back by popInt.
pop_int-add_int :
    (v : ℕ) (rest : List ℕ) → v < 2 ^ 32 → pop_int (add_int [] v ++ rest) ≡ ok (v, rest)
unfolding pop_int add_int
pop_int-add_int v rest h =
    rw (le→ltb (length (be_bytes 4 v ++ rest)) 4 (enough_bytes 4 v rest))
      (ground (arith, pop_be-be_bytes 32 4 0 v rest))

-- A 64-bit word that addLong wrote is read back by popLong.
pub pop_long-add_long :
    (v : ℕ) (rest : List ℕ) → v < 2 ^ 64 → pop_long (add_long [] v ++ rest) ≡ ok (v, rest)
unfolding pop_long add_long
pop_long-add_long v rest h =
    rw (le→ltb (length (be_bytes 8 v ++ rest)) 8 (enough_bytes 8 v rest))
      (ground (arith, pop_be-be_bytes 64 8 0 v rest))

pop_short-add_short :
    (v : ℕ) (rest : List ℕ) → v < 2 ^ 16 → pop_short (add_short [] v ++ rest) ≡ ok (v, rest)
unfolding pop_short add_short
pop_short-add_short v rest h = ground (arith, bit_or_disjoint 8 (v / 256) (v % 256) (omega arith))

pub pop_boolean-add_boolean :
    (b : Bool) (rest : List ℕ) → pop_boolean (add_boolean [] b ++ rest) ≡ ok (b, rest)
unfolding pop_boolean add_boolean
pop_boolean-add_boolean true rest = refl
pop_boolean-add_boolean false rest = refl

-- The bits of a float that addFloat wrote are read back by popFloat.
pop_float-add_float :
    (v : ℕ) (rest : List ℕ) → v < 2 ^ 32 → pop_float (add_float [] v ++ rest) ≡ ok (v, rest)
unfolding pop_float add_float
pop_float-add_float v rest h = ground arith

-- The bits of a double that addDouble wrote are read back by popDouble.
pop_double-add_double :
    (v : ℕ) (rest : List ℕ) → v < 2 ^ 64 → pop_double (add_double [] v ++ rest) ≡ ok (v, rest)
unfolding pop_double add_double
pop_double-add_double v rest h = ground arith

add_sized_string_fits :
    (s : List ℕ) (limit : ℕ)
    → length s ≤ limit
    → add_sized_string [] s limit ≡ ok (add_var_int [] (length s) ++ s)
unfolding add_sized_string
add_sized_string_fits s limit h = rw (le→ltb limit (length s) h)

pub pop_string-sized :
    (s rest : List ℕ)
    → length s < 2 ^ 31
    → pop_string ((add_var_int [] (length s) ++ s) ++ rest) ≡ ok (s, rest)
unfolding pop_string
pop_string-sized s rest h =
    bind_ok pop_var_int _ _ length_read
    ∙ rw (lt→leb (2 ^ 31) (length s) h, le→ltb (length (s ++ rest)) (length s) enough)
        (rw (take-length-append s rest, drop-length-append s rest))
  where
    length_read : pop_var_int ((add_var_int [] (length s) ++ s) ++ rest) ≡ ok (length s, s ++ rest)
    length_read =
        rw (append_assoc (add_var_int [] (length s)) s rest)
          (pop_var_int-add_var_int (length s) (s ++ rest) (omega arith))

    enough : length s ≤ length (s ++ rest)
    enough = omega (arith, length-append s rest)

pop_slot_body-read :
    (item_id item_count : ℕ) (rest : List ℕ)
    → item_id < 2 ^ 32
    → pop_slot_body (add_var_int [] item_id ++ item_count ∷ 0 ∷ rest)
      ≡ ok (record { present = true; item_id = item_id; item_count = item_count }, rest)
unfolding pop_slot_body pop_byte
pop_slot_body-read i c rest h = bind_ok pop_var_int _ _ (pop_var_int-add_var_int i (c ∷ 0 ∷ rest) h)

pop_slot_fields :
    (p : Bool) (i c : ℕ) (rest : List ℕ)
    → i < 2 ^ 32
    → pop_slot (add_slot [] (record { present = p; item_id = i; item_count = c }) ++ rest)
      ≡ ok ((if p then record { present = p; item_id = i; item_count = c } else no_slot), rest)
unfolding pop_slot add_slot pop_boolean
pop_slot_fields false i c rest h = refl
pop_slot_fields true i c rest h = rw (add_var_int-append (1 ∷ []) i (omega arith)) (
    rw
      (
        append_assoc (add_var_int [] i ++ (c ∷ [])) (0 ∷ []) rest,
        append_assoc (add_var_int [] i) (c ∷ []) (0 ∷ rest),
      )
      (pop_slot_body-read i c rest h))

-- A slot whose item id is a 32-bit word is read back by popSlot; of an absent slot only its
-- absence is sent.
pub pop_slot-add_slot :
    (s : Slot) (rest : List ℕ)
    → s.item_id < 2 ^ 32
    → pop_slot (add_slot [] s ++ rest) ≡ ok ((if s.present then s else no_slot), rest)
pop_slot-add_slot s rest h = pop_slot_fields s.present s.item_id s.item_count rest h

-- A UUID of two 64-bit words is read back by popUUID.
pub pop_uuid-add_uuid :
    (u : U128) (rest : List ℕ)
    → u.most < 2 ^ 64
    → u.least < 2 ^ 64
    → pop_uuid (add_uuid [] u ++ rest) ≡ ok (u, rest)
unfolding pop_uuid pop_uuid_words add_uuid
pop_uuid-add_uuid u rest hm hl =
    rw
      (
        add_long-append (add_long [] u.most) u.least,
        append_assoc (add_long [] u.most) (add_long [] u.least) rest,
      )
      (rw (le→ltb (length (add_long [] u.most ++ (add_long [] u.least ++ rest))) 16 enough) (
        bind_ok pop_long _ _ (pop_long-add_long u.most _ hm)
        ∙ bind_ok pop_long _ _ (pop_long-add_long u.least rest hl)))
  where
    enough : 16 ≤ length (add_long [] u.most ++ (add_long [] u.least ++ rest))
    enough = omega (
      arith,
      length-append (add_long [] u.most) (add_long [] u.least ++ rest),
      length-append (add_long [] u.least) rest,
      length-add_long u.most,
      length-add_long u.least,
    )

-- A string of at most the maximal size, 32767 bytes, is written by addString and read back whole
-- by popString.
pub pop_string-add_string :
    (s rest : List ℕ)
    → length s ≤ max_string_size
    → (out : List ℕ) × (add_string [] s ≡ ok out) × (pop_string (out ++ rest) ≡ ok (s, rest))
unfolding add_string
pop_string-add_string s rest h = (
  add_var_int [] (length s) ++ s,
  add_sized_string_fits s max_string_size h,
  pop_string-sized s rest (omega arith),
)

-- A 16-bit word that addShort wrote, a 32-bit word that addInt or, as the bits of a float,
-- addFloat wrote, and a 64-bit word that addLong or, as the bits of a double, addDouble wrote
-- are read back by their pop functions, which stop behind them.
pub fixed_round_trips :
    (short int long : ℕ) (rest : List ℕ)
    → short < 2 ^ 16
    → int < 2 ^ 32
    → long < 2 ^ 64
    → (pop_short (add_short [] short ++ rest) ≡ ok (short, rest))
      × (pop_int (add_int [] int ++ rest) ≡ ok (int, rest))
      × (pop_long (add_long [] long ++ rest) ≡ ok (long, rest))
      × (pop_float (add_float [] int ++ rest) ≡ ok (int, rest))
      × (pop_double (add_double [] long ++ rest) ≡ ok (long, rest))
fixed_round_trips short int long rest h p q = (
  pop_short-add_short short rest h,
  pop_int-add_int int rest p,
  pop_long-add_long long rest q,
  pop_float-add_float int rest p,
  pop_double-add_double long rest q,
)
