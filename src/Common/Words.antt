-- ===== src/Common/Words.antt =====
-- Machine words as native numbers: a w-bit word is its bit pattern, below 2 ^ w. A signed type is
-- its bit pattern too (two's complement), and is read as a number only where the code compares it.
use cubic_server.Common.Lists.{All}
use cubic_server.Common.Tests.{ltb, if◌then◌else◌}
use Prim.Native.Nat.{ℕ, ◌+◌, ◌-◌, ◌*◌, ◌/◌, ◌%◌, ◌^◌, ◌<◌}
use mathlib.Core.List.{List}

abbrev IsByte : ℕ → Type 0
IsByte b = b < 256

abbrev pub IsBytes : List ℕ → Type 0
IsBytes bs = All IsByte bs

-- `x >> k` on an unsigned w-bit word, and `x << k` cut to w bits.
abbrev pub shr : ℕ → ℕ → ℕ
shr x k = x / 2 ^ k

abbrev pub shl : ℕ → ℕ → ℕ → ℕ
shl w x k = x * 2 ^ k % 2 ^ w

-- `x >> k` on a signed word of 64 bits: the sign bit is copied in from the left.
abbrev pub sar64 : ℕ → ℕ → ℕ
sar64 x k = if ltb x (2 ^ 63) then x / 2 ^ k else x / 2 ^ k + (2 ^ 64 - 2 ^ (64 - k))
