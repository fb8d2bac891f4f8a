-- ===== src/Client/Stream.antt =====
-- cubic-server/Client.cpp: a buffer of several packets.
use cubic_server.Client.{waiting, returned, handle_packets}
use cubic_server.Client.Loop.{
  packet_payload, frame, handle_packets-frame, first_round, packet_payload-pos, not_too_long,
  payload-deliver, packet_id-read, erase_frame-frame,
}
use cubic_server.Client.{deliver}
use cubic_server.Protocol.Add.{add_var_int}
use cubic_server.Common.{
  ℕ, suc, ◌^◌, ◌<◌, ◌≡◌, refl, ap, ◌∙◌, arith, Option, none, some, List, [], ◌∷◌, ◌++◌,
  append_assoc, length, Result, ok,
}

-- The packets of a buffer, each with its id and its body, and the buffer.
abbrev pub frames : List (ℕ × List ℕ) → List ℕ
frames [] = []
frames ((id, body) ∷ packets) = frame id body ++ frames packets

-- The packets are known and parsed in the states in which they are reached, and lead from the first
-- state to the last. A parser is given the packets that follow, too.
pub data Delivers {ℓ κ} {S : Type ℓ} {P : Type κ} (parsers : S → ℕ → Option (List ℕ → Result P))
    (handle : S → ℕ → P → S) : S → List (ℕ × List ℕ) → S → Type (ℓ ⊔ κ) where
  nothing : {s : S} → Delivers parsers handle s [] s
  next :
      {s end : S} {id : ℕ} {body : List ℕ} {packets : List (ℕ × List ℕ)}
      (parser : List ℕ → Result P) (packet : P)
      → id < 2 ^ 32
      → length (packet_payload id body) < 2 ^ 31
      → parsers s id ≡ some parser
      → parser (body ++ frames packets) ≡ ok packet
      → Delivers parsers handle (handle s id packet) packets end
      → Delivers parsers handle s ((id, body) ∷ packets) end

module _ {ℓ κ} {S : Type ℓ} {P : Type κ} (parsers : S → ℕ → Option (List ℕ → Result P))
    (handle : S → ℕ → P → S) where
  empty_buffer :
      (rounds : ℕ) (s : S) → handle_packets parsers handle (suc rounds) s [] ≡ waiting s []
  unfolding handle_packets
  empty_buffer rounds s = refl

  -- On a buffer of whole packets that are known and parsed in the states in which they are
  -- reached, the receive loop hands every packet to the handler, in order, and ends with an
  -- empty buffer, waiting; one round for each packet and one more are enough.
  pub handle_packets-frames :
      (s end : S) (packets : List (ℕ × List ℕ))
      → Delivers parsers handle s packets end
      → handle_packets parsers handle (suc (length packets)) s (frames packets) ≡ waiting end []
  handle_packets-frames s end [] nothing = empty_buffer 0 s
  handle_packets-frames s end ((id, body) ∷ packets)
        (next parser packet h small known parsed more) =
      handle_packets-frame parsers handle (suc (length packets)) s id body (frames packets) parser
        packet h small known parsed
      ∙ handle_packets-frames (handle s id packet) end packets more

  -- A whole packet of fewer than 2 ^ 31 bytes whose id has no parser is taken out of the buffer,
  -- and the loop returns with what follows it left.
  pub handle_packets_drops :
      (rounds : ℕ) (s : S) (id : ℕ) (body rest : List ℕ)
      → id < 2 ^ 32
      → length (packet_payload id body) < 2 ^ 31
      → parsers s id ≡ none
      → handle_packets parsers handle (suc rounds) s (frame id body ++ rest) ≡ returned s rest
  handle_packets_drops rounds s id body rest h small unknown =
      ap (handle_packets parsers handle (suc rounds) s) (
        append_assoc (add_var_int [] (length (packet_payload id body))) (packet_payload id body)
          rest)
      ∙ first_round parsers handle rounds s (length (packet_payload id body))
          (packet_payload id body ++ rest) (packet_payload-pos id body h) (omega arith)
      ∙ rw (not_too_long (packet_payload id body) rest small) (
          payload-deliver parsers handle (handle_packets parsers handle rounds) s
            (length (packet_payload id body)) id (packet_payload id body ++ rest) (body ++ rest) _
            rest (packet_id-read id body rest h)
            (erase_frame-frame (add_var_int [] (length (packet_payload id body)))
              (packet_payload id body) rest small)
          ∙ rw (unknown, deliver) refl)
