-- ===== src/Protocol/Safety.antt =====
-- What every pop function does on any input, well formed or not.
use cubic_server.Protocol.InBounds.{
  InBounds, StaysInBounds, InBounds-prefix, InBounds-prefix, InBounds-prefix, bind-StaysInBounds,
  pure-StaysInBounds, InBounds-if, InBounds-if, InBounds-if, if-StaysInBounds,
}
use cubic_server.Common.{
  ℕ, zero, suc, ◌+◌, ◌-◌, ◌/◌, ◌≤◌, ◌≡◌, ◌≢◌, refl, ap, inl, inr, Bool, List, [], ◌∷◌, ◌++◌, arith,
  ltb, leb, ltb→le, Bool-cases, if◌then◌else◌, length, take, drop, ◌^◌, ◌==◌, not, ◌&&◌,
  length_error, packet_eof, out_of_range_boolean, Result, ok, err, Exception, undefined,
}
use Prim.Native.Nat.{bit_and}
use cubic_server.Protocol.Cursor.{Pop, pure}
use cubic_server.Protocol.Pop.{
  pop_byte, pop_boolean, short_of, pop_short, pop_be, pop_int, pop_long, pop_var_loop, pop_var_int,
  pop_var_long, pop_float, pop_double, pop_string, pop_slot_body, pop_slot, pop_uuid_words,
  pop_uuid, pop_each, pop_array, pop_position, pop_bit_set_loop, pop_bit_set,
}

pub pop_byte-StaysInBounds : StaysInBounds pop_byte
unfolding pop_byte
pop_byte-StaysInBounds [] = λ e. cc
pop_byte-StaysInBounds (b ∷ bs) = (b ∷ [], refl)

pub pop_boolean-StaysInBounds : StaysInBounds pop_boolean
unfolding pop_boolean
pop_boolean-StaysInBounds = bind-StaysInBounds pop_byte _ pop_byte-StaysInBounds (λ v.
    if-StaysInBounds (not (v == 0) && not (v == 1)) (λ _. err out_of_range_boolean) (pure (v == 1))
      (λ bs e. cc) (λ bs. ([], refl)))

pop_be-InBounds : (w n a : ℕ) (bs : List ℕ) → n ≤ length bs → InBounds bs (pop_be w n a bs)
unfolding pop_be
pop_be-InBounds w zero a bs h = ([], refl)
pop_be-InBounds w (suc n) a [] h = absurd (omega arith)
pop_be-InBounds w (suc n) a (b ∷ bs) h =
    InBounds-prefix (b ∷ []) bs _ (pop_be-InBounds w n _ bs (omega arith))

-- A read of n bytes behind the test that n bytes are there.
guarded-InBounds {ℓ} :
    {A : Type ℓ} (n : ℕ) (bs : List ℕ) (e : Exception) (r : Result (A × List ℕ))
    → e ≢ undefined
    → (n ≤ length bs → InBounds bs r)
    → InBounds bs (if ltb (length bs) n then err e else r)
guarded-InBounds n bs e r he h = elim (Bool-cases (ltb (length bs) n)) [
  | inl short ↦ rw short he
  | inr enough ↦ rw enough (h (ltb→le (length bs) n enough))
]

pub pop_int-StaysInBounds : StaysInBounds pop_int
unfolding pop_int
pop_int-StaysInBounds bs = guarded-InBounds 4 bs _ _ (λ e. cc) (pop_be-InBounds 32 4 0 bs)

pub pop_long-StaysInBounds : StaysInBounds pop_long
unfolding pop_long
pop_long-StaysInBounds bs = guarded-InBounds 8 bs _ _ (λ e. cc) (pop_be-InBounds 64 8 0 bs)

short_of-InBounds : (bs : List ℕ) → 2 ≤ length bs → InBounds bs (short_of bs)
unfolding short_of
short_of-InBounds (a ∷ b ∷ bs) h = (a ∷ b ∷ [], refl)
short_of-InBounds (a ∷ []) h = absurd (omega arith)
short_of-InBounds [] h = absurd (omega arith)

pub pop_short-StaysInBounds : StaysInBounds pop_short
unfolding pop_short
pop_short-StaysInBounds bs = guarded-InBounds 2 bs _ _ (λ e. cc) (short_of-InBounds bs)

pop_var_loop-InBounds :
    (w : ℕ) (bs : List ℕ) (value position : ℕ) → InBounds bs (pop_var_loop w bs value position)
unfolding pop_var_loop
pop_var_loop-InBounds w [] v p = λ e. cc
pop_var_loop-InBounds w (b ∷ bs) v p =
    InBounds-if (b ∷ bs) (bit_and b 0x80 == 0) _ _ (b ∷ [], refl)
      (InBounds-if (b ∷ bs) (leb w (p + 7)) _ _ (λ e. cc)
        (InBounds-prefix (b ∷ []) bs _ (pop_var_loop-InBounds w bs _ (p + 7))))

pub pop_var_int-StaysInBounds : StaysInBounds pop_var_int
unfolding pop_var_int
pop_var_int-StaysInBounds bs = pop_var_loop-InBounds 32 bs 0 0

pub pop_var_long-StaysInBounds : StaysInBounds pop_var_long
unfolding pop_var_long
pop_var_long-StaysInBounds bs = pop_var_loop-InBounds 64 bs 0 0

take-append-drop {ℓ} : {A : Type ℓ} (n : ℕ) (xs : List A) → xs ≡ take n xs ++ drop n xs
take-append-drop zero xs = refl
take-append-drop (suc n) [] = refl
take-append-drop (suc n) (x ∷ xs) = ap (◌∷◌ x) (take-append-drop n xs)

pub pop_float-StaysInBounds : StaysInBounds pop_float
unfolding pop_float
pop_float-StaysInBounds bs =
    guarded-InBounds 4 bs _ _ (λ e. cc) (λ h. (take 4 bs, take-append-drop 4 bs))

pub pop_double-StaysInBounds : StaysInBounds pop_double
unfolding pop_double
pop_double-StaysInBounds bs =
    guarded-InBounds 8 bs _ _ (λ e. cc) (λ h. (take 8 bs, take-append-drop 8 bs))

pub pop_string-StaysInBounds : StaysInBounds pop_string
unfolding pop_string
pop_string-StaysInBounds = bind-StaysInBounds pop_var_int _ pop_var_int-StaysInBounds sized
  where
    sized :
        (size : ℕ)
        → StaysInBounds (λ bs.
          if leb (2 ^ 31) size
          then err length_error
          else if ltb (length bs) size
          then err packet_eof
          else ok (take size bs, drop size bs))
    sized size bs = elim (Bool-cases (leb (2 ^ 31) size)) [
      | inl e ↦ rw e (λ e. cc)
      | inr e ↦ rw e (
          guarded-InBounds size bs packet_eof (ok (take size bs, drop size bs)) (λ e. cc)
            (λ h. (take size bs, take-append-drop size bs)))
    ]

pop_slot_body-StaysInBounds : StaysInBounds pop_slot_body
unfolding pop_slot_body
pop_slot_body-StaysInBounds = bind-StaysInBounds pop_var_int _ pop_var_int-StaysInBounds (λ i.
    bind-StaysInBounds pop_byte _ pop_byte-StaysInBounds
      (λ c. bind-StaysInBounds pop_byte _ pop_byte-StaysInBounds (λ n bs. ([], refl))))

pub pop_slot-StaysInBounds : StaysInBounds pop_slot
unfolding pop_slot
pop_slot-StaysInBounds =
    bind-StaysInBounds pop_boolean _ pop_boolean-StaysInBounds
      (λ p. if-StaysInBounds p _ _ pop_slot_body-StaysInBounds (λ bs. ([], refl)))

pop_uuid_words-StaysInBounds : StaysInBounds pop_uuid_words
unfolding pop_uuid_words
pop_uuid_words-StaysInBounds =
    bind-StaysInBounds pop_long _ pop_long-StaysInBounds
      (λ m. bind-StaysInBounds pop_long _ pop_long-StaysInBounds (λ l bs. ([], refl)))

pub pop_uuid-StaysInBounds : StaysInBounds pop_uuid
unfolding pop_uuid
pop_uuid-StaysInBounds bs =
    guarded-InBounds 16 bs _ _ (λ e. cc) (λ h. pop_uuid_words-StaysInBounds bs)

pub pop_position-StaysInBounds : StaysInBounds pop_position
unfolding pop_position
pop_position-StaysInBounds =
    bind-StaysInBounds pop_long _ pop_long-StaysInBounds (λ h bs. ([], refl))

module _ {ℓ} {A : Type ℓ} (pop : Pop A) (h : StaysInBounds pop) where
  pop_each-StaysInBounds : (n : ℕ) (front : List A) → StaysInBounds (pop_each pop n front)
  unfolding pop_each
  pop_each-StaysInBounds zero front = pure-StaysInBounds front
  pop_each-StaysInBounds (suc n) front =
      bind-StaysInBounds pop _ h (λ a. pop_each-StaysInBounds n (front ++ (a ∷ [])))

  -- popArray stays within the input if the pop function of its elements does, whatever length
  -- the input announces.
  pub pop_array-StaysInBounds : StaysInBounds (pop_array pop)
  unfolding pop_array
  pop_array-StaysInBounds =
      bind-StaysInBounds pop_var_int _ pop_var_int-StaysInBounds (λ n. pop_each-StaysInBounds _ [])

pop_bit_set_loop-StaysInBounds :
    (n left : ℕ) (result : List Bool) → StaysInBounds (pop_bit_set_loop n left result)
unfolding pop_bit_set_loop
pop_bit_set_loop-StaysInBounds zero left result bs = ([], refl)
pop_bit_set_loop-StaysInBounds (suc n) left result [] = λ e. cc
pop_bit_set_loop-StaysInBounds (suc n) left result (b ∷ bs) =
    InBounds-prefix (b ∷ []) bs _ (pop_bit_set_loop-StaysInBounds n (left - 8) _ bs)

pub pop_bit_set-StaysInBounds : (size : ℕ) → StaysInBounds (pop_bit_set size)
unfolding pop_bit_set
pop_bit_set-StaysInBounds size = pop_bit_set_loop-StaysInBounds ((size + 7) / 8) size []
