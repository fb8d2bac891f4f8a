-- ===== src/Nbt/RoundTrip.antt =====
-- A tag that was serialized is parsed back, nested lists and compounds included.
use cubic_server.Common.{
  ℕ, ◌+◌, ◌*◌, ◌^◌, ◌<◌, ◌≡◌, ◌⊎◌, inl, inr, refl, ap, ◌∙◌, List, [], ◌∷◌, ◌++◌, append_assoc,
  arith, length, length-append, Bool, true, false, All, ok,
}
use cubic_server.Protocol.Add.{be_bytes, le_bytes, push_reversed}
use cubic_server.Protocol.RoundTrip.Fixed.{length-be_bytes}
use cubic_server.Nbt.Tag.{
  Tag, Tags, byte, short, int, long, float, double, byte_array, string, list, compound, int_array,
  long_array, nil, cons, type_of, name_of, count_tags,
}
use cubic_server.Nbt.Serialize.{size_bytes, array_bytes, serialize}
use cubic_server.Nbt.Parser.{
  parsed, bind_parsed, need, next, read_length, rounds, ◌>>=◌, ◌>>◌, pure,
}
use cubic_server.Nbt.Parse.{
  dispatch, parse_list, parse_compound, parse_tagged, parse_items, parse_entries, parse,
}
use cubic_server.Nbt.Valid.{Valid, ValidItems, ValidEntries, first_type, ValidName}
use cubic_server.Nbt.Reads.{
  need_met, read_length-be_bytes, rounds_small, after_head, reversed_four, reversed_eight,
}
use cubic_server.Nbt.Rounds.{
  RoundTrips, ItemsTrip, EntriesTrip, fueled, length-pre_serialize, nil-EntriesTrip,
  cons-EntriesTrip, nil-ItemsTrip, cons-ItemsTrip,
}
use cubic_server.Nbt.Scalars.{
  parse_byte-serialize, parse_short-serialize, parse_int-serialize, parse_long-serialize,
  parse_float-serialize, parse_double-serialize, parse_string-serialize, parse_byte_array-serialize,
  parse_int_array-serialize, parse_long_array-serialize,
}

pair_All : (P : ℕ → Type 0) (vs : List ℕ) → All P vs → All (λ v. P v × P v) vs
pair_All P [] h = tt
pair_All P (v ∷ vs) h = ((h.0, h.0), pair_All P vs h.1)

module _ (inc : Bool) (n : List ℕ) (short_name : ValidName n) (unnamed : inc ≡ false → n ≡ []) where
  compound-RoundTrips : (ts : Tags) → EntriesTrip ts → RoundTrips inc (compound n ts)
  unfolding serialize parse_tagged dispatch parse_compound
  compound-RoundTrips ts (b, w, more, back) =
      fueled inc (compound n ts) n b (rw w) more (λ f rest h.
        after_head inc 10 n b rest _ short_name unnamed more (
          bind_parsed (parse_entries f) _ _
            (back f rest (omega (arith, length-append b rest, length-pre_serialize inc 10 n)))))

  list_body :
      (f type c : ℕ) (items rest : List ℕ) (ts : Tags)
      → c < 2 ^ 31
      → parse_items f type c (items ++ rest) ≡ parsed ts rest
      → (need 1
            >> (next >>= λ t.
                read_length >>= λ size. parse_items f t (rounds size) >>= λ vs. pure (list n vs)))
          ((type ∷ be_bytes 4 c ++ items) ++ rest)
        ≡ parsed (list n ts) rest
  unfolding next
  list_body f type c items rest ts small e =
      bind_parsed (need 1) _ _ (need_met 1 ((type ∷ be_bytes 4 c ++ items) ++ rest) (omega arith))
      ∙ rw (append_assoc (be_bytes 4 c) items rest) (
          bind_parsed read_length _ _ (read_length-be_bytes c (items ++ rest) (omega arith))
          ∙ rw (rounds_small c small) (bind_parsed (parse_items f type c) _ _ e))

  list-RoundTrips :
      (ts : Tags)
      → 0 < count_tags ts
      → count_tags ts < 2 ^ 31
      → ItemsTrip 0 (first_type ts) ts
      → RoundTrips inc (list n ts)
  unfolding serialize parse_tagged dispatch parse_list
  list-RoundTrips nil some small trip = absurd (omega arith)
  list-RoundTrips (cons t ts) some small (b, w, back) =
      fueled inc (list n (cons t ts)) n (type_of t ∷ be_bytes 4 (count_tags (cons t ts)) ++ b)
        (rw w) (omega arith)
        (λ f rest h.
          after_head inc 9 n (type_of t ∷ be_bytes 4 (count_tags (cons t ts)) ++ b) rest _
            short_name unnamed (omega arith)
            (list_body f (type_of t) (count_tags (cons t ts)) b rest (cons t ts) small (
              back f rest (
                omega (
                  arith,
                  length-append b rest,
                  length-append (be_bytes 4 (count_tags (cons t ts))) b,
                  length-be_bytes 4 (count_tags (cons t ts)),
                  length-pre_serialize inc 9 n,
                )))))

  byte-RoundTrips : (v : ℕ) → RoundTrips inc (byte n v)
  unfolding serialize parse_tagged dispatch
  byte-RoundTrips v =
      fueled inc (byte n v) n (v ∷ []) refl (omega arith)
        (λ f rest h. parse_byte-serialize inc n short_name unnamed rest v)

  short-RoundTrips : (v : ℕ) → v < 2 ^ 16 → RoundTrips inc (short n v)
  unfolding serialize parse_tagged dispatch
  short-RoundTrips v k =
      fueled inc (short n v) n (size_bytes v) refl (omega arith)
        (λ f rest h. parse_short-serialize inc n short_name unnamed rest v k)

  int-RoundTrips : (v : ℕ) → v < 2 ^ 32 → RoundTrips inc (int n v)
  unfolding serialize parse_tagged dispatch
  int-RoundTrips v k =
      fueled inc (int n v) n (be_bytes 4 v) refl (omega (arith, length-be_bytes 4 v))
        (λ f rest h. parse_int-serialize inc n short_name unnamed rest v k)

  long-RoundTrips : (v : ℕ) → v < 2 ^ 64 → RoundTrips inc (long n v)
  unfolding serialize parse_tagged dispatch
  long-RoundTrips v k =
      fueled inc (long n v) n (be_bytes 8 v) refl (omega (arith, length-be_bytes 8 v))
        (λ f rest h. parse_long-serialize inc n short_name unnamed rest v k)

  float-RoundTrips : (v : ℕ) → v < 2 ^ 32 → RoundTrips inc (float n v)
  unfolding serialize parse_tagged dispatch
  float-RoundTrips v k =
      fueled inc (float n v) n (push_reversed [] (le_bytes 4 v)) refl
        (omega (arith, ap length (reversed_four v), length-be_bytes 4 v))
        (λ f rest h. parse_float-serialize inc n short_name unnamed rest v k)

  double-RoundTrips : (v : ℕ) → v < 2 ^ 64 → RoundTrips inc (double n v)
  unfolding serialize parse_tagged dispatch
  double-RoundTrips v k =
      fueled inc (double n v) n (push_reversed [] (le_bytes 8 v)) refl
        (omega (arith, ap length (reversed_eight v), length-be_bytes 8 v))
        (λ f rest h. parse_double-serialize inc n short_name unnamed rest v k)

  byte_array-RoundTrips : (v : List ℕ) → length v < 2 ^ 31 → RoundTrips inc (byte_array n v)
  unfolding serialize parse_tagged dispatch
  byte_array-RoundTrips v k =
      fueled inc (byte_array n v) n (be_bytes 4 (length v) ++ v) refl
        (omega (arith, length-append (be_bytes 4 (length v)) v, length-be_bytes 4 (length v)))
        (λ f rest h. parse_byte_array-serialize inc n short_name unnamed rest v k)

  string-RoundTrips : (v : List ℕ) → length v < 2 ^ 16 → RoundTrips inc (string n v)
  unfolding serialize parse_tagged dispatch
  string-RoundTrips v k =
      fueled inc (string n v) n (size_bytes (length v) ++ v) refl (omega arith)
        (λ f rest h. parse_string-serialize inc n short_name unnamed rest v k)

  int_array-RoundTrips :
      (v : List ℕ) → length v < 2 ^ 29 → All (λ a. a < 2 ^ 32) v → RoundTrips inc (int_array n v)
  unfolding serialize parse_tagged dispatch
  int_array-RoundTrips v k a =
      fueled inc (int_array n v) n (be_bytes 4 (length v) ++ array_bytes 4 v) refl
        (omega (
          arith,
          length-append (be_bytes 4 (length v)) (array_bytes 4 v),
          length-be_bytes 4 (length v),
        ))
        (λ f rest h. parse_int_array-serialize inc n short_name unnamed rest v k (pair_All _ v a))

  long_array-RoundTrips :
      (v : List ℕ) → length v < 2 ^ 28 → All (λ a. a < 2 ^ 64) v → RoundTrips inc (long_array n v)
  unfolding serialize parse_tagged dispatch
  long_array-RoundTrips v k a =
      fueled inc (long_array n v) n (be_bytes 4 (length v) ++ array_bytes 8 v) refl
        (omega (
          arith,
          length-append (be_bytes 4 (length v)) (array_bytes 8 v),
          length-be_bytes 4 (length v),
        ))
        (λ f rest h. parse_long_array-serialize inc n short_name unnamed rest v k (pair_All _ v a))

parse_first :
    (t : Tag) (bytes tail rest : List ℕ)
    → bytes ≡ type_of t ∷ tail
    → parse_tagged (2 * length (bytes ++ rest) + 1) (type_of t) true false (bytes ++ rest)
      ≡ parsed t rest
    → parse (bytes ++ rest) ≡ parsed t rest
unfolding parse
parse_first t bytes tail rest starts e = rw starts (rw starts at e)

mutual
  Valid-RoundTrips :
      (inc : Bool) (t : Tag) → Valid t → (inc ≡ false → name_of t ≡ []) → RoundTrips inc t
  Valid-RoundTrips inc (byte n v) h u = byte-RoundTrips inc n h.0 u v
  Valid-RoundTrips inc (short n v) h u = short-RoundTrips inc n h.0 u v h.1
  Valid-RoundTrips inc (int n v) h u = int-RoundTrips inc n h.0 u v h.1
  Valid-RoundTrips inc (long n v) h u = long-RoundTrips inc n h.0 u v h.1
  Valid-RoundTrips inc (float n v) h u = float-RoundTrips inc n h.0 u v h.1
  Valid-RoundTrips inc (double n v) h u = double-RoundTrips inc n h.0 u v h.1
  Valid-RoundTrips inc (byte_array n v) h u = byte_array-RoundTrips inc n h.0 u v h.1
  Valid-RoundTrips inc (string n v) h u = string-RoundTrips inc n h.0 u v h.1
  Valid-RoundTrips inc (list n ts) h u =
      list-RoundTrips inc n h.0 u ts h.1 h.2
        (ValidItems-ItemsTrip 0 (first_type ts) ts (inl refl) h.3)
  Valid-RoundTrips inc (compound n ts) h u =
      compound-RoundTrips inc n h.0 u ts (ValidEntries-EntriesTrip ts h.1)
  Valid-RoundTrips inc (int_array n v) h u = int_array-RoundTrips inc n h.0 u v h.1 h.2
  Valid-RoundTrips inc (long_array n v) h u = long_array-RoundTrips inc n h.0 u v h.1 h.2

  ValidItems-ItemsTrip :
      (current type : ℕ) (ts : Tags)
      → (current ≡ 0) ⊎ (current ≡ type)
      → ValidItems type ts
      → ItemsTrip current type ts
  ValidItems-ItemsTrip current type nil c h = nil-ItemsTrip current type
  ValidItems-ItemsTrip current type (cons t ts) c h =
      cons-ItemsTrip current type t ts c h.0 (Valid-RoundTrips false t h.2 (λ _. h.1))
        (ValidItems-ItemsTrip type type ts (inr refl) h.3)

  ValidEntries-EntriesTrip : (ts : Tags) → ValidEntries ts → EntriesTrip ts
  ValidEntries-EntriesTrip nil h = nil-EntriesTrip
  ValidEntries-EntriesTrip (cons t ts) h =
      cons-EntriesTrip t ts (Valid-RoundTrips true t h.0 (λ e. absurd (cc)))
        (ValidEntries-EntriesTrip ts h.1)

-- Every valid tag serializes without an exception, and parse gives the same tag back from its
-- bytes, whatever follows them, and stops behind them.
pub parse-serialize :
    (t : Tag) (rest : List ℕ)
    → Valid t
    → (bytes : List ℕ) × (serialize true t ≡ ok bytes) × (parse (bytes ++ rest) ≡ parsed t rest)
parse-serialize t rest h =
    let (bytes, written, more, typed, back) = Valid-RoundTrips true t h (λ e. absurd (cc)) in
    let (tail, starts) = typed refl in
    (
      bytes,
      written,
      parse_first t bytes tail rest starts
          (back (2 * length (bytes ++ rest) + 1) rest (omega arith)),
    )
