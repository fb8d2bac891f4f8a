-- ===== src/Protocol/Types.antt =====
-- cubic-server/protocol/Structures.hpp, types.hpp: the structures that packets carry.
use cubic_server.Common.{ℕ, Bool}

-- `itemID` is an int32_t and `itemCount` an int8_t, each as its bit pattern.
pub record Slot : Type 0 where
  pub present : Bool
  pub item_id : ℕ
  pub item_count : ℕ

-- u128 of types.hpp: two 64-bit words.
pub record U128 : Type 0 where
  pub most : ℕ
  pub least : ℕ

-- Each coordinate is an int64_t, as its bit pattern.
pub record Position : Type 0 where
  pub x : ℕ
  pub y : ℕ
  pub z : ℕ
