-- ===== src/TickClock/Tests.antt =====
-- The server's clock of 20 ticks.
use cubic_server.TickClock.{TickClock, start, new_clock, set_callback}
use cubic_server.TickClock.Rate.{tick_times, start-tick_times}
use cubic_server.Common.{◌≡◌, refl, arith, true}

abbrev twenty : TickClock
twenty = set_callback (new_clock 20) true

start-tick_times_example :
    ((tick_times 50 (start twenty)).1 ≡ 2) × ((tick_times 50 (start twenty)).0.ticks ≡ 10)
unfolding set_callback new_clock
start-tick_times_example = start-tick_times twenty 50 refl (omega arith) (omega arith)
