-- ===== src/ThreadPool.antt =====
-- cubic-server/thread_pool/Semaphore.hpp: ReverseSemaphore, which a thread waits on until no job is
-- open. Every operation holds the lock from beginning to end, so that a run is a sequence of them.
use cubic_server.Common.{ℕ, suc, ◌+◌, ◌-◌, ◌%◌, ◌^◌, Bool, true, false, ◌&&◌, if◌then◌else◌, ◌==◌}
pub mod Waiting
pub mod Semaphore
pub mod Permits
mod Tests

-- `_books` is an int, as its bit pattern.
pub record ReverseSemaphore : Type 0 where
  pub notifier : Bool
  pub books : ℕ

unfoldable pub new_semaphore : ReverseSemaphore
new_semaphore = record { notifier = true; books = 0 }

unfoldable pub increment : ReverseSemaphore → ℕ → ReverseSemaphore
increment s nb = record { notifier = false; books = (s.books + nb) % 2 ^ 32 }

unfoldable pub decrement : ReverseSemaphore → ReverseSemaphore
decrement s =
    let books = (s.books + (2 ^ 32 - 1)) % 2 ^ 32 in
    record { notifier = (if books == 0 then true else s.notifier); books = books }

-- Whether a round of `wait` returns: `_notifier` is not false any more, and no job is open.
unfoldable pub wait_returns : ReverseSemaphore → Bool
wait_returns s = s.notifier && (s.books == 0)
