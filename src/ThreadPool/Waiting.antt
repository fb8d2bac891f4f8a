-- ===== src/ThreadPool/Waiting.antt =====
-- cubic-server/thread_pool/Semaphore.hpp: when a wait on a ReverseSemaphore returns.
use cubic_server.Common.{ℕ, zero, suc, ◌+◌, ◌^◌, ◌≤◌, ◌<◌, ◌≡◌, ◌==◌}
use cubic_server.ThreadPool.{ReverseSemaphore, new_semaphore, increment, decrement}

-- The semaphores that a run reaches, with the number of jobs that are open: jobs are added one or
-- more at a time, fewer than 2 ^ 31 are open at once, and only an open job is taken off.
pub data Reached : ReverseSemaphore → ℕ → Type 0 where
  fresh : Reached new_semaphore 0
  added :
      {s : ReverseSemaphore} {open_jobs : ℕ} (nb : ℕ)
      → 1 ≤ nb
      → open_jobs + nb < 2 ^ 31
      → Reached s open_jobs
      → Reached (increment s nb) (open_jobs + nb)
  finished :
      {s : ReverseSemaphore} {open_jobs : ℕ}
      → Reached s (suc open_jobs)
      → Reached (decrement s) open_jobs

abbrev Agrees : ReverseSemaphore → ℕ → Type 0
Agrees s n = (s.books ≡ n) × (n < 2 ^ 31) × (s.notifier ≡ (n == 0))

pub decrements : ℕ → ReverseSemaphore → ReverseSemaphore
decrements zero s = s
decrements (suc k) s = decrements k (decrement s)
