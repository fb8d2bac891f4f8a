-- ===== src/Packets/Safety.antt =====
-- cubic-server/protocol/ServerPackets.cpp: which parsers stay within the buffer.
pub mod Session
pub mod Chat
pub mod Items
pub mod Movement
pub mod Actions
pub mod Blocks
pub mod Tables
