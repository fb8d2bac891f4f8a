-- ===== src/Client/Tests.antt =====
-- Small buffers through the receive loop: packet 0 counts, no other packet is known.
use cubic_server.Client.{waiting, returned, escaped, running, handle_packets}
use cubic_server.Client.Loop.{packet_payload, frame, handle_packets_waits}
use cubic_server.Client.Stream.{
  frames, Delivers, nothing, next, handle_packets-frames, handle_packets_drops,
}
use cubic_server.Client.Limits.{minus_five, handle_packets-last_missing, handle_packets_endless}
use cubic_server.Protocol.Add.{add_var_int}
use cubic_server.Protocol.RoundTrip.VarInt.{add_var_int-var_bytes, length-var_bytes}
use cubic_server.Common.{
  ℕ, zero, suc, ◌+◌, ◌^◌, ◌<◌, ◌≡◌, ◌≤◌, ap, length-append, refl, arith, Option, none, some, List,
  [], ◌∷◌, ◌++◌, length, undefined, Result, ok,
}

abbrev take_all : List ℕ → Result (List ℕ)
take_all bs = ok bs

abbrev counters : ℕ → ℕ → Option (List ℕ → Result (List ℕ))
counters s zero = some take_all
counters s (suc id) = none

abbrev count : ℕ → ℕ → List ℕ → ℕ
count s id packet = suc s

abbrev two_packets : List (ℕ × List ℕ)
two_packets = (0, 7 ∷ []) ∷ (0, []) ∷ []

payload_size :
    (id : ℕ) (body : List ℕ) → id < 2 ^ 64 → length (packet_payload id body) ≤ 10 + length body
payload_size id body h = omega (
  arith,
  length-append (add_var_int [] id) body,
  ap length (add_var_int-var_bytes [] id h),
  (length-var_bytes 9 id).1,
)

two_packets-Delivers : Delivers counters count 5 two_packets 7
two_packets-Delivers =
    next take_all (7 ∷ frames ((0, []) ∷ [])) (omega arith)
      (omega (arith, payload_size 0 (7 ∷ []) (omega arith))) refl refl
      (next take_all [] (omega arith) (omega (arith, payload_size 0 [] (omega arith))) refl refl
        nothing)

handle_packets-frames_example :
    handle_packets counters count 3 5 (frames two_packets) ≡ waiting 7 []
handle_packets-frames_example =
    handle_packets-frames counters count 5 7 two_packets two_packets-Delivers

handle_packets_waits_example :
    handle_packets counters count 1 5 (add_var_int [] 9 ++ 0 ∷ 7 ∷ [])
    ≡ waiting 5 (add_var_int [] 9 ++ 0 ∷ 7 ∷ [])
handle_packets_waits_example =
    handle_packets_waits counters count 0 5 9 (0 ∷ 7 ∷ []) (omega arith) (omega arith)

handle_packets_drops_example :
    handle_packets counters count 1 5 (frame 3 (7 ∷ []) ++ 1 ∷ []) ≡ returned 5 (1 ∷ [])
handle_packets_drops_example =
    handle_packets_drops counters count 0 5 3 (7 ∷ []) (1 ∷ []) (omega arith)
      (omega (arith, payload_size 3 (7 ∷ []) (omega arith))) refl

handle_packets-last_missing_example :
    handle_packets counters count 1 5
      (add_var_int [] (length (packet_payload 0 (7 ∷ [])) + 1) ++ packet_payload 0 (7 ∷ []))
    ≡ escaped undefined
handle_packets-last_missing_example =
    handle_packets-last_missing counters count 0 5 0 (7 ∷ []) (omega arith)
      (omega (arith, payload_size 0 (7 ∷ []) (omega arith)))

abbrev only_counters : ℕ → ℕ → Option (List ℕ → Result (List ℕ))
only_counters s id = some take_all

handle_packets_endless_example :
    handle_packets only_counters count 1000 5 (minus_five ++ packet_payload 0 (7 ∷ [])) ≡ running
handle_packets_endless_example =
    handle_packets_endless only_counters count 0 (7 ∷ []) (λ s. take_all) (λ s. 7 ∷ [])
      (omega arith) (λ s. refl) (λ s. refl) 1000 5
