-- ===== src/WorldStorage/Storage.antt =====
-- cubic-server/world_storage/DynamicStorage.hpp: an array of values of a few bits each, packed in
-- words. `w` is StoreTypeSize and `n` is ArraySize.
use cubic_server.Common.{
  ℕ, zero, suc, ◌+◌, ◌-◌, ◌*◌, ◌/◌, ◌%◌, ◌^◌, Bool, true, false, Option, none, some, List, [],
  replicate, get_elem?, set, if◌then◌else◌, ltb, leb, ◌==◌, Result, ok, err, ◌>>=◌, logic_error,
  runtime_error, out_of_range, empty_storage_access, undefined,
}
use cubic_server.Common.Words.{shr, shl}
use Prim.Native.Nat.{bit_and, bit_or}

pub record DynamicStorage : Type 0 where
  pub store : List ℕ
  pub value_size : ℕ

-- `StoreTypeSize / valueSize`, the values in a word.
abbrev pub per_word : ℕ → ℕ → ℕ
per_word w size = w / size

abbrev pub word_count : ℕ → ℕ → ℕ → ℕ
word_count w n size = n / per_word w size + (if n % per_word w size == 0 then 0 else 1)

-- The constructor.
unfoldable pub construct : ℕ → ℕ → ℕ → Result DynamicStorage
construct w n size =
    if ltb w size
    then err logic_error
    else if size == 0
    then ok (record { store = []; value_size = 0 })
    else ok (record { store = replicate (word_count w n size) 0; value_size = size })

-- `(1 << _valueSize) - 1` in a 32-bit int: a size of 31 or more is not defined.
abbrev value_mask : ℕ → Result ℕ
value_mask size = if leb size 30 then ok (2 ^ size - 1) else err undefined

abbrev or_out_of_range : Option ℕ → Result ℕ
or_out_of_range none = err out_of_range
or_out_of_range (some word) = ok word

-- `_store.at(entryNumber)`.
abbrev pub at : List ℕ → ℕ → Result ℕ
at store i = or_out_of_range (get_elem? store i)

abbrev pub start_offset : ℕ → ℕ → ℕ → ℕ
start_offset w size i = i % per_word w size * size

-- `&= ~(mask << startOffset)`, then `|= (value << startOffset)`, in a word of `w` bits.
abbrev replace_bits : ℕ → ℕ → ℕ → ℕ → ℕ → ℕ
replace_bits w mask offset word value =
    bit_or (bit_and word (2 ^ w - 1 - shl w mask offset)) (shl w value offset)

unfoldable pub set_value : ℕ → ℕ → DynamicStorage → ℕ → ℕ → Result DynamicStorage
set_value w n s i value =
    if s.value_size == 0
    then ok s
    else if leb n i
    then err out_of_range
    else value_mask s.value_size >>= λ mask.
        if ltb mask value
        then err out_of_range
        else at s.store (i / per_word w s.value_size) >>= λ word. ok (record s {
          store =
              set s.store (i / per_word w s.value_size)
                (replace_bits w mask (start_offset w s.value_size i) word (bit_and value mask));
        })

unfoldable pub get_value : ℕ → ℕ → DynamicStorage → ℕ → Result ℕ
get_value w n s i =
    if s.value_size == 0
    then err empty_storage_access
    else if leb n i
    then err out_of_range
    else value_mask s.value_size >>= λ mask. at s.store (i / per_word w s.value_size) >>= λ word.
        ok (bit_and (shr word (start_offset w s.value_size i)) mask)

-- `for (i = ...; i < ArraySize; ++i) newStore.set(i, get(i))`, with `left` rounds to go.
unfoldable pub copy_values : ℕ → ℕ → DynamicStorage → ℕ → ℕ → DynamicStorage → Result DynamicStorage
copy_values w n old i zero new = ok new
copy_values w n old i (suc left) new =
    get_value w n old i >>= λ value. set_value w n new i value >>= copy_values w n old (suc i) left

unfoldable pub set_value_size : ℕ → ℕ → DynamicStorage → ℕ → Result DynamicStorage
set_value_size w n s size =
    if size == s.value_size
    then ok s
    else if ltb w size
    then err runtime_error
    else if size == 0
    then ok (record { store = []; value_size = 0 })
    else construct w n size >>= λ new.
        if s.value_size == 0 then ok new else copy_values w n s 0 n new

-- `canContainData`.
abbrev pub can_contain_data : DynamicStorage → Bool
can_contain_data s = if s.value_size == 0 then false else true
