-- ===== src/Protocol.antt =====
-- cubic-server/protocol: the primary types of the wire format, in serialization/addPrimaryType.hpp
-- and serialization/popPrimaryType.hpp, with the structures that they carry.
pub mod Types
pub mod Cursor
pub mod Add
pub mod Pop
pub mod RoundTrip
pub mod InBounds
pub mod Safety
pub mod BitSet
pub mod Slots
pub mod SlotLaws
pub mod SwapCount
mod Tests
