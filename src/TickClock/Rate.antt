-- ===== src/TickClock/Rate.antt =====
-- cubic-server/TickClock.cpp: how often the clock calls back.
use cubic_server.TickClock.{TickClock, start, tick}
use cubic_server.Common.{
  ℕ, zero, suc, ◌+◌, ◌*◌, ◌/◌, ◌%◌, ◌^◌, ◌≤◌, ◌<◌, ◌≡◌, refl, sym, ap, ◌∙◌, arith, inl, inr, ◌⊎◌,
  Bool, true, false, lt→ltb, le→ltb,
}
use cubic_server.Common.Fields.{div_unique, mod_unique'}
use native.Mathlib.Nat.{mod-eq_of_lt}

abbrev as_call : Bool → ℕ
as_call true = 1
as_call false = 0

-- The clock after so many ticks, and how often it called back.
unfoldable pub tick_times : ℕ → TickClock → TickClock × ℕ
tick_times zero c = (c, 0)
tick_times (suc n) c =
    let (c', calls) = tick_times n c in let (c'', called) = tick c' in (c'', calls + as_call called)

-- What holds after n ticks from the start: the ticks make up the calls and what is left.
abbrev Counts : TickClock → ℕ → TickClock × ℕ → Type 0
Counts c n (c', calls) =
    (c'.started ≡ true)
    × (c'.tick_rate ≡ c.tick_rate)
    × (c'.has_callback ≡ c.has_callback)
    × (c'.ticks < c.tick_rate)
    × (calls * c.tick_rate + c'.ticks ≡ n)

le_or_lt : (a b : ℕ) → (a < b) ⊎ (b ≤ a)
le_or_lt a b = ground arith

below_word : (d : TickClock) → d.ticks + 1 < 2 ^ 16 → (d.ticks + 1) % 2 ^ 16 ≡ d.ticks + 1
below_word d h = mod-eq_of_lt h

tick-below :
    (d : TickClock)
    → d.started ≡ true
    → d.ticks + 1 < d.tick_rate
    → d.tick_rate < 2 ^ 16
    → tick d ≡ (record d { ticks = d.ticks + 1 }, false)
unfolding tick
tick-below d s h q = rw (s, below_word d (omega arith), lt→ltb (d.ticks + 1) d.tick_rate h) refl

tick-full :
    (d : TickClock)
    → d.started ≡ true
    → d.tick_rate ≤ d.ticks + 1
    → d.ticks + 1 < 2 ^ 16
    → tick d ≡ (record d { ticks = 0 }, d.has_callback)
unfolding tick
tick-full d s h q = rw (s, below_word d q, le→ltb (d.ticks + 1) d.tick_rate h) refl

tick-Counts :
    (c d : TickClock) (n calls : ℕ)
    → c.has_callback ≡ true
    → c.tick_rate < 2 ^ 16
    → Counts c n (d, calls)
    → Counts c (suc n) ((tick d).0, calls + as_call (tick d).1)
tick-Counts c d n calls k q (s, r, cb, lt, sum) = elim (le_or_lt (d.ticks + 1) d.tick_rate) [
  | inl more ↦ rw (tick-below d s more (omega arith)) (s, r, cb, omega arith, omega arith)
  | inr full ↦
      rw (tick-full d s full (omega arith), cb ∙ k)
        (s, r, sym k, omega arith, one_more calls c.tick_rate d.ticks n (omega arith) sum)
]
  where
    one_more : (a m t n : ℕ) → t + 1 ≡ m → a * m + t ≡ n → (a + 1) * m + 0 ≡ suc n
    one_more a m t n e f = grind arith

tick_times-Counts :
    (c : TickClock) (n : ℕ)
    → c.started ≡ true
    → c.has_callback ≡ true
    → c.ticks ≡ 0
    → 0 < c.tick_rate
    → c.tick_rate < 2 ^ 16
    → Counts c n (tick_times n c)
unfolding tick_times
tick_times-Counts c zero s k z p q = (s, refl, refl, omega arith, omega arith)
tick_times-Counts c (suc n) s k z p q =
    tick-Counts c (tick_times n c).0 n (tick_times n c).1 k q (tick_times-Counts c n s k z p q)

-- A clock with a callback has called it, n ticks after its start, n / tickRate times, and its
-- tick count is the rest, for a rate from 1 to 65535.
pub start-tick_times :
    (c : TickClock) (n : ℕ)
    → c.has_callback ≡ true
    → 0 < c.tick_rate
    → c.tick_rate < 2 ^ 16
    → ((tick_times n (start c)).1 ≡ n / c.tick_rate)
      × ((tick_times n (start c)).0.ticks ≡ n % c.tick_rate)
unfolding start
start-tick_times c n k p q =
    let (_, r, _, lt, sum) = tick_times-Counts (start c) n refl k refl p q in
    (
      sym (div_unique _ c.tick_rate _ lt) ∙ ap (λ (t : ℕ). t / c.tick_rate) sum,
      sym (mod_unique' _ c.tick_rate _ lt) ∙ ap (λ (t : ℕ). t % c.tick_rate) sum,
    )
