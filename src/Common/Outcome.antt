-- ===== src/Common/Outcome.antt =====
-- What a C++ call gives back: a value, or the exception that it throws.

-- The exceptions of the program and of the standard library that the modelled code throws.
-- Two more stand for what the C++ standard gives no meaning to: `undefined` for a read outside the
-- data, `signed_overflow` for arithmetic that leaves the range of a signed type.
pub data Exception : Type 0 where
  packet_eof varint_overflow max_length_string out_of_range_boolean : Exception
  empty_storage_access out_of_range logic_error runtime_error length_error : Exception
  type_mismatch undefined signed_overflow : Exception

pub data Result {ℓ} (A : Type ℓ) : Type ℓ where
  err : Exception → Result A
  ok : A → Result A

-- An exception ends the rest of a function.
abbrev pub ◌>>=◌ {κ ℓ} : {A : Type κ} {B : Type ℓ} → Result A → (A → Result B) → Result B
err thrown >>= go = err thrown
ok value >>= go = go value

infixl 5 ◌>>=◌
