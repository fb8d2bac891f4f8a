-- ===== src/Protocol/RoundTrip.antt =====
-- What the pop functions read of what the add functions wrote.
pub mod Fixed
pub mod VarInt
pub mod Values
pub mod Positions
pub mod Arrays
