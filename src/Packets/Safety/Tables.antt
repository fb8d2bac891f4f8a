-- ===== src/Packets/Safety/Tables.antt =====
-- cubic-server/protocol/ServerPackets.hpp: the parsers of the tables stay within the buffer.

-- An entry in front of the rest of a table.
infixr 5 ◌&◌
◌&◌ : {A B : Type 0} → A → B → A × B
a & b = (a, b)
