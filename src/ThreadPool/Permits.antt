-- ===== src/ThreadPool/Permits.antt =====
-- cubic-server/thread_pool/Semaphore.hpp: Semaphore as a number of permits that each call changes at
-- once, whatever steps of other calls fall between its own.
use cubic_server.Common.{ℕ, ◌+◌, ◌-◌, ◌^◌, ◌≤◌, ◌<◌, ◌≡◌, Bool, true, false, List, [], ◌∷◌}
use cubic_server.ThreadPool.Semaphore.{
  Holder, free, decreasing, acquiring, Semaphore, new_counter, release, increment_test,
  increment_store, acquire_test, acquire_store,
}

-- What a call that returned did: `release`, `acquire` and `increment` of n.
pub data Event : Type 0 where
  given : ℕ → Event
  taken : ℕ → Event
  withdrawn : ℕ → Event

-- The specification: the permits that are there after the events, the newest first. A withdrawal
-- takes its n permits, or all that are there.
pub data Allows : List Event → ℕ → Type 0 where
  none_yet : Allows [] 0
  gives : {l : List Event} {there : ℕ} (n : ℕ) → Allows l there → Allows (given n ∷ l) (there + n)
  takes :
      {l : List Event} {there : ℕ} (n : ℕ)
      → n ≤ there
      → Allows l there
      → Allows (taken n ∷ l) (there - n)
  withdraws :
      {l : List Event} {there : ℕ} (n : ℕ)
      → n ≤ there
      → Allows l there
      → Allows (withdrawn n ∷ l) (there - n)
  clears : {l : List Event} {there : ℕ} (n : ℕ) → Allows l there → Allows (withdrawn n ∷ l) 0

unfoldable pub total_given : List Event → ℕ
total_given [] = 0
total_given (given n ∷ l) = n + total_given l
total_given (taken n ∷ l) = total_given l
total_given (withdrawn n ∷ l) = total_given l

-- The runs: any thread may take its next step, where the lock lets it. The permits released are
-- fewer than 2 ^ 63 in all, and no call is of a negative n.
pub data Run : Semaphore → List Event → Type 0 where
  begins : Run new_counter []
  releases :
      {s : Semaphore} {l : List Event} (n : ℕ)
      → n + total_given l < 2 ^ 63
      → Run s l
      → Run (release s n) (given n ∷ l)
  increment_tests :
      {s : Semaphore} {l : List Event} (n : ℕ)
      → n < 2 ^ 63
      → s.holder ≡ free
      → Run s l
      → Run (increment_test s n) l
  increment_stores :
      {s : Semaphore} {l : List Event} (n : ℕ) (greater : Bool)
      → s.holder ≡ decreasing n greater
      → Run s l
      → Run (increment_store s n greater) (withdrawn n ∷ l)
  acquire_tests :
      {s : Semaphore} {l : List Event} (n : ℕ)
      → n < 2 ^ 63
      → s.holder ≡ free
      → Run s l
      → Run (acquire_test s n) l
  acquire_stores :
      {s : Semaphore} {l : List Event} (n : ℕ)
      → s.holder ≡ acquiring n
      → Run s l
      → Run (acquire_store s n) (taken n ∷ l)

-- What the holder of the lock has found out stays true, as others only release.
abbrev pub Found : Holder → ℕ → Type 0
Found free there = Unit {0}
Found (decreasing n true) there = n < there
Found (decreasing n false) there = Unit {0}
Found (acquiring n) there = n ≤ there

abbrev Tracks : Semaphore → List Event → Type 0
Tracks s l =
    Allows l s.counter
    × (s.counter ≤ total_given l)
    × (total_given l < 2 ^ 63)
    × Found s.holder s.counter
