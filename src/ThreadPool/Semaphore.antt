-- ===== src/ThreadPool/Semaphore.antt =====
-- cubic-server/thread_pool/Semaphore.hpp: Semaphore. `release` does not take the lock, so that it may
-- fall between the test and the store of `increment` and `acquire`, which hold it: each of these is
-- two steps here, with what the holder of the lock has found out between them.
use cubic_server.Common.{ℕ, ◌+◌, ◌-◌, ◌%◌, ◌^◌, Bool, if◌then◌else◌, ltb, ◌==◌}

-- Who holds `_counterMutex`: nobody, an `increment` that has compared `_counter` with its n, or an
-- `acquire` whose n is there.
pub data Holder : Type 0 where
  free : Holder
  decreasing : ℕ → Bool → Holder
  acquiring : ℕ → Holder

-- `_counter` is a ptrdiff_t of 64 bits, as its bit pattern.
pub record Semaphore : Type 0 where
  pub counter : ℕ
  pub holder : Holder

-- `a < b` of two ptrdiff_t.
unfoldable pub signed_less : ℕ → ℕ → Bool
signed_less a b = ltb ((a + 2 ^ 63) % 2 ^ 64) ((b + 2 ^ 63) % 2 ^ 64)

unfoldable pub new_counter : Semaphore
new_counter = record { counter = 0; holder = free }

unfoldable pub release : Semaphore → ℕ → Semaphore
release s n = record s { counter = (s.counter + n) % 2 ^ 64 }

-- `increment` takes the lock and tests `_counter > n`.
unfoldable pub increment_test : Semaphore → ℕ → Semaphore
increment_test s n = record s { holder = decreasing n (signed_less n s.counter) }

-- It stores the new counter and drops the lock.
unfoldable pub increment_store : Semaphore → ℕ → Bool → Semaphore
increment_store s n greater = record {
  counter = (if greater then (s.counter + (2 ^ 64 - n)) % 2 ^ 64 else 0);
  holder = free;
}

-- Whether `acquire` sleeps in `_counter.wait(0)`.
unfoldable pub acquire_sleeps : Semaphore → Bool
acquire_sleeps s = s.counter == 0

-- A round of `acquire` that took the lock: it drops it again where fewer than n are there.
unfoldable pub acquire_test : Semaphore → ℕ → Semaphore
acquire_test s n = if signed_less s.counter n then s else record s { holder = acquiring n }

unfoldable pub acquire_store : Semaphore → ℕ → Semaphore
acquire_store s n = record { counter = (s.counter + (2 ^ 64 - n)) % 2 ^ 64; holder = free }
