-- ===== src/Nbt.antt =====
-- cubic-server/nbt.hpp and nbt.cpp: the tags, their binary form and its parser.
pub mod Tag
pub mod Serialize
pub mod Parser
pub mod Parse
pub mod Reads
pub mod Patterns
pub mod Valid
pub mod Lookup
pub mod Change
pub mod Overflow
pub mod Scalars
pub mod Rounds
pub mod RoundTrip
pub mod Bounds
pub mod Total
mod Tests
