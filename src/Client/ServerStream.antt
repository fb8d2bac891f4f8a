-- ===== src/Client/ServerStream.antt =====
-- cubic-server/Client.cpp with protocol/ServerPackets.cpp and protocol/ServerPackets.hpp: the receive
-- loop over the tables of the server, on packets in the wire format.
use cubic_server.Common.{ℕ, ◌^◌, ◌<◌, ◌≡◌, Option, List, [], ◌∷◌, length}
use cubic_server.Client.Loop.{packet_payload}
use cubic_server.Packets.Dispatch.{ClientStatus, ServerPacket, Parser, parsers}
use cubic_server.Packets.Ids.{status_of, packet_id}
use cubic_server.Packets.RoundTrip.Formats.{put_packet, FitsPacket}

-- The bytes that a client sends for packets: a length, an id and a body for each.
abbrev pub sent : List ServerPacket → List (ℕ × List ℕ)
sent [] = []
sent (p ∷ packets) = (packet_id p, put_packet p []) ∷ sent packets

module _ {S : Type 0} (status : S → ClientStatus) (handle : S → ℕ → ServerPacket → S) where
  abbrev pub tables : S → ℕ → Option Parser
  tables s id = parsers (status s) id

  -- The state after packets that are handled one after the other.
  abbrev pub handle_all : S → List ServerPacket → S
  handle_all s [] = s
  handle_all s (p ∷ packets) = handle_all (handle s (packet_id p) p) packets

  -- Each packet fits the wire format and is one of the state in which it arrives.
  abbrev pub InOrder : S → List ServerPacket → Type 0
  InOrder s [] = Unit {0}
  InOrder s (p ∷ packets) =
      (status s ≡ status_of p)
      × FitsPacket p
      × (length (packet_payload (packet_id p) (put_packet p [])) < 2 ^ 31)
      × InOrder (handle s (packet_id p) p) packets
