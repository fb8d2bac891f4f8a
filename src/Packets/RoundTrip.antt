-- ===== src/Packets/RoundTrip.antt =====
-- cubic-server/protocol/ServerPackets.cpp: what the parsers read of packets in the wire format.
pub mod Session
pub mod Chat
pub mod Items
pub mod Recipes
pub mod Movement
pub mod Actions
pub mod Blocks
pub mod Formats
pub mod Tables
