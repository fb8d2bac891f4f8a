-- ===== src/TickClock.antt =====
-- cubic-server/TickClock.hpp, TickClock.cpp: a clock that calls back every `tickRate` ticks.
use cubic_server.Common.{
  ℕ, zero, suc, ◌+◌, ◌-◌, ◌*◌, ◌/◌, ◌%◌, ◌^◌, ◌≤◌, ◌<◌, ◌≡◌, refl, sym, ap, ◌∙◌, arith, inl, inr,
  ◌⊎◌, Bool, true, false, not, if◌then◌else◌, ltb, lt→ltb, le→ltb,
}
use cubic_server.Common.Fields.{div_unique, mod_unique'}
use native.Mathlib.Nat.{mod-eq_of_lt}
pub mod Rate
mod Tests

-- The fields but the callback itself: only whether there is one. `_tickRate` and `_tick` are uint16_t.
pub record TickClock : Type 0 where
  pub started : Bool
  pub tick_rate : ℕ
  pub has_callback : Bool
  pub ticks : ℕ

-- TickClock(tickRate). The constructor with a callback leaves `_started` as it is in memory.
unfoldable pub new_clock : ℕ → TickClock
new_clock rate = record { started = false; tick_rate = rate; has_callback = false; ticks = 0 }

unfoldable new_clock_with_callback : Bool → ℕ → TickClock
new_clock_with_callback memory rate = record {
  started = memory;
  tick_rate = rate;
  has_callback = true;
  ticks = 0;
}

unfoldable pub start : TickClock → TickClock
start c = record c { started = true; ticks = 0 }

unfoldable stop : TickClock → TickClock
stop c = record c { started = false; ticks = 0 }

-- The clock after a tick, and whether it called back.
unfoldable pub tick : TickClock → TickClock × Bool
tick c =
    if not c.started
    then (c, false)
    else if ltb ((c.ticks + 1) % 2 ^ 16) c.tick_rate
    then (record c { ticks = (c.ticks + 1) % 2 ^ 16 }, false)
    else (record c { ticks = 0 }, c.has_callback)

unfoldable set_tick_rate : TickClock → ℕ → TickClock
set_tick_rate c rate = record c { tick_rate = rate }

unfoldable pub set_callback : TickClock → Bool → TickClock
set_callback c callable = record c { has_callback = callable }
