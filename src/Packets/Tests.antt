-- ===== src/Packets/Tests.antt =====
-- Packets of one client, in the wire format.
use cubic_server.Common.{true}
use cubic_server.Packets.Actions.{Interact, parse_interact}
use cubic_server.Packets.Dispatch.{interact, Parser, as_packet}

-- A click on a point of an entity.
abbrev at_point : Interact
at_point = record {
  entity_id = 300;
  type = 2;
  target_x = 0x3f800000;
  target_y = 0;
  target_z = 7;
  hand = 1;
  sneaking = true;
}

abbrev interact_parser : Parser
interact_parser buffer = as_packet interact (parse_interact buffer)
