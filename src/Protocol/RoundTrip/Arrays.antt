-- ===== src/Protocol/RoundTrip/Arrays.antt =====
-- addArray and popArray over any element whose own functions undo one another.
use cubic_server.Common.{
  ℕ, ◌^◌, ◌<◌, ◌≡◌, ap, sym, ◌∙◌, List, [], ◌∷◌, ◌++◌, append_assoc, append-nil, arith, length, ok,
  All, lt→leb,
}
use cubic_server.Protocol.Cursor.{bind_ok, Codec}
use cubic_server.Protocol.Add.{add_var_int, add_each, add_array}
use cubic_server.Protocol.Pop.{pop_var_int, pop_each, pop_array}
use cubic_server.Protocol.RoundTrip.VarInt.{pop_var_int-add_var_int}
use native.Mathlib.Nat.{mod-eq_of_lt}

module _ {ℓ} {A : Type ℓ} (c : Codec A) where
  open c use {add, pop, Valid, add-append, pop-add}

  add_each-append :
      (xs : List A) (out : List ℕ) → All Valid xs → add_each add out xs ≡ out ++ add_each add [] xs
  unfolding add_each
  add_each-append [] out h = sym (append-nil out)
  add_each-append (x ∷ xs) out h =
      rw (add_each-append xs (add out x) h.1, add_each-append xs (add [] x) h.1)
        (rw (add-append out x h.0) (append_assoc out (add [] x) (add_each add [] xs)))

  pop_each-add_each :
      (xs front : List A) (rest : List ℕ)
      → All Valid xs
      → pop_each pop (length xs) front (add_each add [] xs ++ rest) ≡ ok (front ++ xs, rest)
  unfolding add_each pop_each
  pop_each-add_each [] front rest h = rw (append-nil front)
  pop_each-add_each (x ∷ xs) front rest h =
      rw (add_each-append xs (add [] x) h.1, append_assoc (add [] x) (add_each add [] xs) rest)
        (bind_ok pop _ _ (pop-add x (add_each add [] xs ++ rest) h.0)
          ∙ pop_each-add_each xs (front ++ (x ∷ [])) rest h.1
          ∙ ap (λ (t : List A). ok (t, rest)) (append_assoc front (x ∷ []) xs))

  -- For elements that round-trip, an array of fewer than 2 ^ 31 valid elements is read back by
  -- popArray with as many elements as addArray wrote.
  pub pop_array-add_array :
      (xs : List A) (rest : List ℕ)
      → All Valid xs
      → length xs < 2 ^ 31
      → pop_array pop (add_array add [] xs ++ rest) ≡ ok (xs, rest)
  unfolding pop_array add_array
  pop_array-add_array xs rest h short =
      rw
        (
          mod-eq_of_lt {n = length xs} {m = 2 ^ 32} (omega arith),
          add_each-append xs (add_var_int [] (length xs)) h,
        )
        (rw (append_assoc (add_var_int [] (length xs)) (add_each add [] xs) rest) (
          bind_ok pop_var_int _ _ (pop_var_int-add_var_int (length xs) _ (omega arith))
          ∙ rw (lt→leb (2 ^ 31) (length xs) short) (pop_each-add_each xs [] rest h)))
