-- ===== src/Client/Limits.antt =====
-- cubic-server/Client.cpp: lengths that the loop is not made for.
use cubic_server.Client.{
  escaped, running, frame_var_int, too_long, erase_frame, payload, handle_packets,
}
use cubic_server.Client.Loop.{
  packet_payload, first_round, round_on, payload-deliver, deliver-handle, frame_var_int-add_var_int,
}
use cubic_server.Protocol.Pop.{pop_var_int, pop_var_loop}
use cubic_server.Protocol.Add.{add_var_int}
use cubic_server.Common.{
  ℕ, zero, suc, ◌+◌, ◌-◌, ◌^◌, ◌<◌, ◌≡◌, refl, ap, ◌∙◌, arith, false, Option, some, List, [], ◌∷◌,
  ◌++◌, length, length-append, lt→leb, lt→ltb, undefined, Result, ok, err,
}

-- The length -5, in five bytes.
abbrev pub minus_five : List ℕ
minus_five = 0xfb ∷ 0xff ∷ 0xff ∷ 0xff ∷ 0x0f ∷ []

minus_five-read : (rest : List ℕ) → frame_var_int (minus_five ++ rest) ≡ ok (2 ^ 32 - 5, rest)
unfolding frame_var_int pop_var_int pop_var_loop
minus_five-read rest = refl

erase_minus_five :
    (rest : List ℕ)
    → erase_frame (length (minus_five ++ rest) - length rest) (2 ^ 32 - 5) (minus_five ++ rest)
      ≡ ok (minus_five ++ rest)
erase_minus_five rest =
    ap (λ (t : ℕ). erase_frame t (2 ^ 32 - 5) (minus_five ++ rest)) (five (length rest))
  where
    five : (n : ℕ) → suc (suc (suc (suc (suc n)))) - n ≡ 5
    five n = omega arith

exactly_one_short : (n : ℕ) → n + 1 < 2 ^ 31 → too_long (n + 1) n ≡ false
exactly_one_short n h = ground arith

erase_past :
    (bs : List ℕ)
    → length bs + 1 < 2 ^ 31
    → erase_frame
        (length (add_var_int [] (length bs + 1) ++ bs) - length bs)
        (length bs + 1)
        (add_var_int [] (length bs + 1) ++ bs)
      ≡ err undefined
erase_past bs h =
    rw
      (
        lt→leb (2 ^ 31) (length bs + 1) h,
        lt→ltb (length (add_var_int [] (length bs + 1) ++ bs)) _ over,
      )
      refl
  where
    over :
        length (add_var_int [] (length bs + 1) ++ bs)
        < length (add_var_int [] (length bs + 1) ++ bs) - length bs + (length bs + 1)
    over = omega (arith, length-append (add_var_int [] (length bs + 1)) bs)

module _ {ℓ κ} {S : Type ℓ} {P : Type κ} (parsers : S → ℕ → Option (List ℕ → Result P))
    (handle : S → ℕ → P → S) where
  no_rounds : (s : S) (buffer : List ℕ) → handle_packets parsers handle 0 s buffer ≡ running
  unfolding handle_packets
  no_rounds s buffer = refl

  -- A packet of which exactly the last byte has not arrived is not waited for: the loop erases a
  -- range that goes past the buffer.
  pub handle_packets-last_missing :
      (rounds : ℕ) (s : S) (id : ℕ) (body : List ℕ)
      → id < 2 ^ 32
      → length (packet_payload id body) + 1 < 2 ^ 31
      → handle_packets parsers handle
          (suc rounds)
          s
          (add_var_int [] (length (packet_payload id body) + 1) ++ packet_payload id body)
        ≡ escaped undefined
  handle_packets-last_missing rounds s id body h small =
      first_round parsers handle rounds s (length (packet_payload id body) + 1)
        (packet_payload id body) (omega arith) (omega arith)
      ∙ rw (exactly_one_short (length (packet_payload id body)) small) (
          rw
            (
              frame_var_int-add_var_int id body h,
              payload,
              erase_past (packet_payload id body) small,
            )
            refl)

  -- A length of -5 makes the loop erase nothing: where the packet behind it is known and parsed
  -- in every state, the loop still runs after any number of rounds.
  pub handle_packets_endless :
      (id : ℕ) (body : List ℕ) (parser : S → List ℕ → Result P) (packet : S → P)
      → id < 2 ^ 32
      → ((s : S) → parsers s id ≡ some (parser s))
      → ((s : S) → parser s body ≡ ok (packet s))
      → (rounds : ℕ) (s : S)
      → handle_packets parsers handle rounds s (minus_five ++ packet_payload id body) ≡ running
  handle_packets_endless id body parser packet h known parsed zero s = no_rounds s _
  handle_packets_endless id body parser packet h known parsed (suc rounds) s =
      round_on parsers handle rounds s (2 ^ 32 - 5) 0xfb (packet_payload id body) _ (omega arith)
        (minus_five-read (packet_payload id body))
      ∙ payload-deliver parsers handle (handle_packets parsers handle rounds) s (2 ^ 32 - 5) id
          (packet_payload id body) body (minus_five ++ packet_payload id body)
          (minus_five ++ packet_payload id body) (frame_var_int-add_var_int id body h)
          (erase_minus_five (packet_payload id body))
      ∙ deliver-handle parsers handle (handle_packets parsers handle rounds) s id body
          (minus_five ++ packet_payload id body) (parser s) (packet s) (known s) (parsed s)
      ∙ handle_packets_endless id body parser packet h known parsed rounds (handle s id (packet s))
