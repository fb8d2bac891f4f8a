-- ===== src/Client/Loop.antt =====
-- cubic-server/Client.cpp: what `_handlePacket` does with whole packets, and with parts of one.
use cubic_server.Client.{
  Outcome, waiting, past_end, frame_var_int, too_long, erase_frame, deliver, payload,
  handle_packets,
}
use cubic_server.Common.{
  ℕ, suc, ◌+◌, ◌-◌, ◌^◌, ◌≤◌, ◌<◌, ◌≡◌, refl, sym, ap, ap₂, subst, ◌∙◌, arith, false, Option, some,
  List, [], ◌∷◌, ◌++◌, append_assoc, length, length-append, drop, drop-length-append, lt→leb,
  lt→ltb, le→ltb, ne→==, if◌then◌else◌, Result, ok,
}
use cubic_server.Protocol.Add.{add_var_int}
use cubic_server.Protocol.RoundTrip.VarInt.{
  pop_var_int-add_var_int, var_bytes, add_var_int-var_bytes, length-var_bytes,
}

-- A packet as the format sends it: the length of its id and body, the id, and the body.
abbrev pub packet_payload : ℕ → List ℕ → List ℕ
packet_payload id body = add_var_int [] id ++ body

abbrev pub frame : ℕ → List ℕ → List ℕ
frame id body = add_var_int [] (length (packet_payload id body)) ++ packet_payload id body

pub frame_var_int-add_var_int :
    (v : ℕ) (rest : List ℕ) → v < 2 ^ 32 → frame_var_int (add_var_int [] v ++ rest) ≡ ok (v, rest)
unfolding frame_var_int
frame_var_int-add_var_int v rest h = rw (pop_var_int-add_var_int v rest h, past_end) refl

-- A VarInt has a byte at least.
add_var_int-cons : (v : ℕ) → v < 2 ^ 64 → (b : ℕ) × (bs : List ℕ) × (add_var_int [] v ≡ b ∷ bs)
add_var_int-cons v h =
    non_empty (var_bytes 9 v) ((length-var_bytes 9 v).0) (add_var_int-var_bytes [] v h)
  where
    non_empty :
        (xs : List ℕ)
        → 1 ≤ length xs
        → add_var_int [] v ≡ xs
        → (b : ℕ) × (bs : List ℕ) × (add_var_int [] v ≡ b ∷ bs)
    non_empty [] p e = absurd (omega arith)
    non_empty (b ∷ bs) p e = (b, bs, e)

-- Erasing a frame leaves what follows it.
pub erase_frame-frame :
    (head body rest : List ℕ)
    → length body < 2 ^ 31
    → erase_frame
        (length (head ++ (body ++ rest)) - length (body ++ rest))
        (length body)
        (head ++ (body ++ rest))
      ≡ ok rest
erase_frame-frame head body rest h =
    rw (lt→leb (2 ^ 31) (length body) h, le→ltb (length (head ++ (body ++ rest))) _ fits)
      (ap ok (
        ap₂ drop size (sym (append_assoc head body rest)) ∙ drop-length-append (head ++ body) rest))
  where
    size :
        length (head ++ (body ++ rest)) - length (body ++ rest) + length body
        ≡ length (head ++ body)
    size =
        omega (
          arith,
          length-append head (body ++ rest),
          length-append body rest,
          length-append head body,
        )

    fits :
        length (head ++ (body ++ rest)) - length (body ++ rest) + length body
        ≤ length (head ++ (body ++ rest))
    fits = omega (arith, length-append head (body ++ rest), length-append body rest)

pub packet_payload-pos :
    (id : ℕ) (body : List ℕ) → id < 2 ^ 32 → 0 < length (packet_payload id body)
packet_payload-pos id body h =
    let (b, bs, e) = add_var_int-cons id (omega arith) in
    omega (arith, ap length e, length-append (add_var_int [] id) body)

pub packet_id-read :
    (id : ℕ) (body rest : List ℕ)
    → id < 2 ^ 32
    → frame_var_int (packet_payload id body ++ rest) ≡ ok (id, body ++ rest)
packet_id-read id body rest h =
    ap frame_var_int (append_assoc (add_var_int [] id) body rest)
    ∙ frame_var_int-add_var_int id (body ++ rest) h

pub not_too_long :
    (bs rest : List ℕ) → length bs < 2 ^ 31 → too_long (length bs) (length (bs ++ rest)) ≡ false
not_too_long bs rest h =
    rw
      (
        lt→leb (2 ^ 31) (length bs) h,
        le→ltb (length (bs ++ rest) + 1) (length bs) (omega (arith, length-append bs rest)),
      )
      refl

module _ {ℓ κ} {S : Type ℓ} {P : Type κ} (parsers : S → ℕ → Option (List ℕ → Result P))
    (handle : S → ℕ → P → S) where
  abbrev pub Rounds : ℕ → S → ℕ → List ℕ → List ℕ → Type ℓ
  Rounds rounds s len rest buffer = handle_packets parsers handle (suc rounds) s buffer ≡ (
      if too_long len (length rest)
      then waiting s buffer
      else payload parsers handle (handle_packets parsers handle rounds) s len rest buffer)

  pub round_on :
      (rounds : ℕ) (s : S) (len b : ℕ) (rest bs : List ℕ)
      → 0 < len
      → frame_var_int (b ∷ bs) ≡ ok (len, rest)
      → Rounds rounds s len rest (b ∷ bs)
  unfolding handle_packets
  round_on rounds s len b rest bs h e =
      rw (e, handle_packets, ne→== len 0 (λ z. absurd (omega arith))) refl

  -- The first round on a buffer that begins with a length.
  pub first_round :
      (rounds : ℕ) (s : S) (len : ℕ) (rest : List ℕ)
      → 0 < len
      → len < 2 ^ 32
      → Rounds rounds s len rest (add_var_int [] len ++ rest)
  first_round rounds s len rest h p =
      let (b, bs, e) = add_var_int-cons len (omega arith) in
      subst (λ (t : List ℕ). Rounds rounds s len rest (t ++ rest)) (sym e)
        (round_on rounds s len b rest (bs ++ rest) h (
          subst (λ (t : List ℕ). frame_var_int (t ++ rest) ≡ ok (len, rest)) e
            (frame_var_int-add_var_int len rest p)))

  pub payload-deliver :
      (next : S → List ℕ → Outcome S) (s : S) (len id : ℕ) (rest at buffer left : List ℕ)
      → frame_var_int rest ≡ ok (id, at)
      → erase_frame (length buffer - length rest) len buffer ≡ ok left
      → payload parsers handle next s len rest buffer ≡ deliver parsers handle next s id at left
  payload-deliver next s len id rest at buffer left e f = rw (e, payload, f) refl

  pub deliver-handle :
      (next : S → List ℕ → Outcome S) (s : S) (id : ℕ) (at left : List ℕ)
      (parser : List ℕ → Result P) (packet : P)
      → parsers s id ≡ some parser
      → parser at ≡ ok packet
      → deliver parsers handle next s id at left ≡ next (handle s id packet) left
  deliver-handle next s id at left parser packet e f = rw (e, deliver, f) refl

  -- A packet of which two bytes or more have not arrived behind its length, a positive int32_t,
  -- stays in the buffer, and the loop waits.
  pub handle_packets_waits :
      (rounds : ℕ) (s : S) (len : ℕ) (part : List ℕ)
      → len < 2 ^ 31
      → length part + 1 < len
      → handle_packets parsers handle (suc rounds) s (add_var_int [] len ++ part)
        ≡ waiting s (add_var_int [] len ++ part)
  handle_packets_waits rounds s len part h p =
      first_round rounds s len part (omega arith) (omega arith)
      ∙ rw (lt→leb (2 ^ 31) len h, lt→ltb (length part + 1) len p) refl

  -- A whole packet that is known, of fewer than 2 ^ 31 bytes, and that its parser takes from its
  -- body and all that follows in the buffer, is handled, and the loop goes on with what follows
  -- the packet.
  pub handle_packets-frame :
      (rounds : ℕ) (s : S) (id : ℕ) (body rest : List ℕ) (parser : List ℕ → Result P) (packet : P)
      → id < 2 ^ 32
      → length (packet_payload id body) < 2 ^ 31
      → parsers s id ≡ some parser
      → parser (body ++ rest) ≡ ok packet
      → handle_packets parsers handle (suc rounds) s (frame id body ++ rest)
        ≡ handle_packets parsers handle rounds (handle s id packet) rest
  handle_packets-frame rounds s id body rest parser packet h small known parsed =
      ap (handle_packets parsers handle (suc rounds) s) (
        append_assoc (add_var_int [] (length (packet_payload id body))) (packet_payload id body)
          rest)
      ∙ first_round rounds s (length (packet_payload id body)) (packet_payload id body ++ rest)
          (packet_payload-pos id body h) (omega arith)
      ∙ rw (not_too_long (packet_payload id body) rest small) (
          payload-deliver (handle_packets parsers handle rounds) s (length (packet_payload id body))
            id (packet_payload id body ++ rest) (body ++ rest) _ rest
            (packet_id-read id body rest h)
            (erase_frame-frame (add_var_int [] (length (packet_payload id body)))
              (packet_payload id body) rest small)
          ∙ deliver-handle (handle_packets parsers handle rounds) s id (body ++ rest) rest parser
              packet known parsed)
