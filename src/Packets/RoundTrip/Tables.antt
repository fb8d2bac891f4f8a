-- ===== src/Packets/RoundTrip/Tables.antt =====
-- cubic-server/protocol/ServerPackets.hpp: every packet in the wire format is read back by the
-- parser that the tables give for its state and id.
use cubic_server.Common.{ℕ, ◌≡◌, some, List, ok}
use cubic_server.Packets.Dispatch.{ServerPacket, Parser, parsers}
use cubic_server.Packets.Ids.{status_of, packet_id}
use cubic_server.Packets.RoundTrip.Formats.{put_packet}

abbrev pub Reads : ServerPacket → List ℕ → Type 0
Reads p rest =
    (parser : Parser) × (parsers (status_of p) (packet_id p) ≡ some parser)
    × (parser (put_packet p rest) ≡ ok p)
