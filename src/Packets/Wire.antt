-- ===== src/Packets/Wire.antt =====
-- The wire format of a packet's fields, each written in front of what follows it, and what the pop
-- functions of cubic-server/protocol/serialization/popPrimaryType.hpp read of them.
use cubic_server.Common.{
  ℕ, ◌^◌, ◌<◌, ◌≡◌, refl, ap, sym, ◌∙◌, Bool, true, false, List, [], ◌∷◌, ◌++◌, append_assoc,
  append-nil, arith, if◌then◌else◌, length, replicate, All, lt→leb, ok,
}
use cubic_server.Protocol.Types.{Slot, U128, Position}
use cubic_server.Protocol.Cursor.{Pop, bind_ok}
use cubic_server.Protocol.Add.{
  add_boolean, add_short, add_int, add_long, add_var_int, add_float, add_double, add_slot, add_uuid,
  add_position,
}
use cubic_server.Protocol.Pop.{
  pop_byte, pop_boolean, pop_short, pop_int, pop_long, pop_var_int, pop_var_long, pop_float,
  pop_double, pop_string, pop_slot, pop_uuid, pop_position, pop_each, pop_array, pop_bit_set,
  no_slot,
}
use cubic_server.Packets.Parsed.{optional}
use cubic_server.Protocol.RoundTrip.VarInt.{pop_var_int-add_var_int, pop_var_long-add_var_long}
use cubic_server.Protocol.RoundTrip.Values.{
  pop_boolean-add_boolean, pop_string-sized, pop_slot-add_slot, pop_uuid-add_uuid,
  fixed_round_trips,
}
use cubic_server.Protocol.RoundTrip.Positions.{FitsSigned, pop_position-add_position}

-- A pop function reads what is put in front of anything.
abbrev pub Reads {ℓ} : {A : Type ℓ} → Pop A → (A → List ℕ → List ℕ) → (A → Type 0) → Type ℓ
Reads {A = A} pop put Fits = (a : A) (rest : List ℕ) → Fits a → pop (put a rest) ≡ ok (a, rest)

abbrev pub put_byte : ℕ → List ℕ → List ℕ
put_byte v rest = v ∷ rest

abbrev pub put_boolean : Bool → List ℕ → List ℕ
put_boolean b rest = add_boolean [] b ++ rest

abbrev pub put_short : ℕ → List ℕ → List ℕ
put_short v rest = add_short [] v ++ rest

abbrev pub put_int : ℕ → List ℕ → List ℕ
put_int v rest = add_int [] v ++ rest

abbrev pub put_long : ℕ → List ℕ → List ℕ
put_long v rest = add_long [] v ++ rest

abbrev pub put_var_int : ℕ → List ℕ → List ℕ
put_var_int v rest = add_var_int [] v ++ rest

abbrev pub put_float : ℕ → List ℕ → List ℕ
put_float v rest = add_float [] v ++ rest

abbrev pub put_double : ℕ → List ℕ → List ℕ
put_double v rest = add_double [] v ++ rest

abbrev pub put_string : List ℕ → List ℕ → List ℕ
put_string s rest = (add_var_int [] (length s) ++ s) ++ rest

abbrev pub put_uuid : U128 → List ℕ → List ℕ
put_uuid u rest = add_uuid [] u ++ rest

abbrev pub put_position : Position → List ℕ → List ℕ
put_position p rest = add_position [] p ++ rest

abbrev pub put_slot : Slot → List ℕ → List ℕ
put_slot s rest = add_slot [] s ++ rest

unfoldable pub put_each {ℓ} : {A : Type ℓ} → (A → List ℕ → List ℕ) → List A → List ℕ → List ℕ
put_each put [] rest = rest
put_each put (x ∷ xs) rest = put x (put_each put xs rest)

abbrev pub put_array {ℓ} : {A : Type ℓ} → (A → List ℕ → List ℕ) → List A → List ℕ → List ℕ
put_array put xs rest = put_var_int (length xs) (put_each put xs rest)

abbrev pub put_optional {ℓ} : {A : Type ℓ} → Bool → (A → List ℕ → List ℕ) → A → List ℕ → List ℕ
put_optional there put a rest = if there then put a rest else rest

-- Twenty bits that are all 0.
abbrev pub no_bits : List Bool
no_bits = replicate 20 false

abbrev pub put_no_bits : List Bool → List ℕ → List ℕ
put_no_bits bits rest = 0 ∷ 0 ∷ 0 ∷ rest

abbrev pub FitsString : List ℕ → Type 0
FitsString s = length s < 2 ^ 31

abbrev pub FitsUuid : U128 → Type 0
FitsUuid u = (u.most < 2 ^ 64) × (u.least < 2 ^ 64)

abbrev pub FitsPosition : Position → Type 0
FitsPosition p = FitsSigned 26 p.x × FitsSigned 12 p.y × FitsSigned 26 p.z

-- Of an absent slot nothing but its absence is sent.
abbrev pub FitsSlot : Slot → Type 0
FitsSlot s = (s.item_id < 2 ^ 32) × ((if s.present then s else no_slot) ≡ s)

abbrev pub FitsArray {ℓ} : {A : Type ℓ} → (A → Type 0) → List A → Type 0
FitsArray Fits xs = All Fits xs × (length xs < 2 ^ 31)

-- A field that is not sent has the value that the packet was made with.
abbrev pub FitsOptional {ℓ} : {A : Type ℓ} → Bool → (A → Type 0) → A → A → Type ℓ
FitsOptional there Fits a none_sent = (there ≡ true → Fits a) × (there ≡ false → a ≡ none_sent)

pub byte_read : (v : ℕ) (rest : List ℕ) → pop_byte (put_byte v rest) ≡ ok (v, rest)
unfolding pop_byte
byte_read v rest = refl

pub boolean_read : (b : Bool) (rest : List ℕ) → pop_boolean (put_boolean b rest) ≡ ok (b, rest)
boolean_read = pop_boolean-add_boolean

pub short_read : Reads pop_short put_short (λ v. v < 2 ^ 16)
short_read v rest h = (fixed_round_trips v 0 0 rest h (omega arith) (omega arith)).0

pub int_read : Reads pop_int put_int (λ v. v < 2 ^ 32)
int_read v rest h = (fixed_round_trips 0 v 0 rest (omega arith) h (omega arith)).1

pub long_read : Reads pop_long put_long (λ v. v < 2 ^ 64)
long_read v rest h = (fixed_round_trips 0 0 v rest (omega arith) (omega arith) h).2

pub float_read : Reads pop_float put_float (λ v. v < 2 ^ 32)
float_read v rest h = (fixed_round_trips 0 v 0 rest (omega arith) h (omega arith)).3

pub double_read : Reads pop_double put_double (λ v. v < 2 ^ 64)
double_read v rest h = (fixed_round_trips 0 0 v rest (omega arith) (omega arith) h).4

pub var_int_read : Reads pop_var_int put_var_int (λ v. v < 2 ^ 32)
var_int_read = pop_var_int-add_var_int

pub var_long_read : Reads pop_var_long put_var_int (λ v. v < 2 ^ 64)
var_long_read = pop_var_long-add_var_long

pub string_read : Reads pop_string put_string FitsString
string_read = pop_string-sized

pub uuid_read : Reads pop_uuid put_uuid FitsUuid
uuid_read u rest (m, l) = pop_uuid-add_uuid u rest m l

pub position_read : Reads pop_position put_position FitsPosition
position_read p rest (x, y, z) = pop_position-add_position p rest x y z

pub slot_read : Reads pop_slot put_slot FitsSlot
slot_read s rest (h, e) = pop_slot-add_slot s rest h ∙ ap (λ (t : Slot). ok (t, rest)) e

pub no_bits_read : Reads (pop_bit_set 20) put_no_bits (λ bits. bits ≡ no_bits)
unfolding pop_bit_set
no_bits_read bits rest e = ap (λ (t : List Bool). ok (t, rest)) (sym e)

pub optional_read {ℓ} :
    {A : Type ℓ} (there : Bool) (pop : Pop A) (put : A → List ℕ → List ℕ) (Fits : A → Type 0)
    (none_sent a : A) (rest : List ℕ)
    → Reads pop put Fits
    → FitsOptional there Fits a none_sent
    → optional there pop none_sent (put_optional there put a rest) ≡ ok (a, rest)
optional_read {A = A} true pop put Fits z a rest read (h, k) = read a rest (h refl)
optional_read {A = A} false pop put Fits z a rest read (h, k) =
    ap (λ (t : A). ok (t, rest)) (sym (k refl))

module _ {ℓ} {A : Type ℓ} (pop : Pop A) (put : A → List ℕ → List ℕ) (Fits : A → Type 0)
    (read : Reads pop put Fits) where
  each_read :
      (xs front : List A) (rest : List ℕ)
      → All Fits xs
      → pop_each pop (length xs) front (put_each put xs rest) ≡ ok (front ++ xs, rest)
  unfolding pop_each put_each
  each_read [] front rest h = rw (append-nil front)
  each_read (x ∷ xs) front rest h =
      bind_ok pop _ _ (read x (put_each put xs rest) h.0)
      ∙ each_read xs (front ++ (x ∷ [])) rest h.1
      ∙ ap (λ (t : List A). ok (t, rest)) (append_assoc front (x ∷ []) xs)

  pub array_read : Reads (pop_array pop) (put_array put) (FitsArray Fits)
  unfolding pop_array
  array_read xs rest (h, short) =
      bind_ok pop_var_int _ _ (var_int_read (length xs) _ (omega arith))
      ∙ rw (lt→leb (2 ^ 31) (length xs) short) (each_read xs [] rest h)

All-unit : (xs : List ℕ) → All (λ _. Unit {0}) xs
All-unit [] = tt
All-unit (x ∷ xs) = (tt, All-unit xs)

pub byte_array_read : Reads (pop_array pop_byte) (put_array put_byte) FitsString
byte_array_read xs rest h =
    array_read pop_byte put_byte (λ _. Unit {0}) (λ v r _. byte_read v r) xs rest (All-unit xs, h)

pub string_array_read : Reads (pop_array pop_string) (put_array put_string) (FitsArray FitsString)
string_array_read = array_read pop_string put_string FitsString string_read
