-- ===== src/ThreadPool/Tests.antt =====
-- Two jobs, of which one is finished or both are, and permits given and taken in between.
use cubic_server.Common.{◌≡◌, refl, false, List, [], ◌∷◌}
use cubic_server.ThreadPool.Semaphore.{
  Semaphore, signed_less, new_counter, release, acquire_test, acquire_store, acquire_sleeps,
  increment_test, increment_store,
}
use cubic_server.ThreadPool.Permits.{total_given, Event, total_given, given, taken}
use cubic_server.ThreadPool.{ReverseSemaphore, new_semaphore, increment, decrement}

abbrev one_left : ReverseSemaphore
one_left = decrement (increment new_semaphore 2)

abbrev two_open : ReverseSemaphore
two_open = increment new_semaphore 2

abbrev three_events : List Event
three_events = taken 1 ∷ given 3 ∷ given 2 ∷ []

-- An acquire whose permit is there, and a release between its test and its store.
abbrev acquired : Semaphore
acquired = acquire_store (release (acquire_test (release new_counter 2) 1) 3) 1

-- A release between the test and the store of an increment is lost.
released_between :
    Semaphore.counter
      (increment_store (release (increment_test (release new_counter 1) 1) 3) 1 false)
    ≡ 0
unfolding increment_store
released_between = refl

-- An acquire of two permits where one is there neither sleeps nor takes it.
acquire_spins :
    (acquire_sleeps (release new_counter 1) ≡ false)
    × (acquire_test (release new_counter 1) 2 ≡ release new_counter 1)
unfolding acquire_sleeps acquire_test release new_counter signed_less
acquire_spins = (refl, refl)
