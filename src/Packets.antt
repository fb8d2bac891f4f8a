-- ===== src/Packets.antt =====
-- cubic-server/protocol/ServerPackets.hpp, ServerPackets.cpp: the packets that clients send.
pub mod Wire
pub mod Parsed
pub mod Session
pub mod Chat
pub mod Items
pub mod Movement
pub mod Actions
pub mod Blocks
pub mod Dispatch
pub mod Ids
pub mod Safety
pub mod RoundTrip
pub mod Fronts
pub mod Framing
mod Tests
