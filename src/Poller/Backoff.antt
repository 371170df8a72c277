-- ===== src/Poller/Backoff.antt =====
-- The delay between two cycles.
use ftd_metrics_exporter.Prelude.{ℕ, zero, suc, ◌+◌, ◌*◌, ◌^◌, ◌≤◌, ◌<◌, ◌≡◌, arith}
use native.Mathlib.Nat.{two-pow-succ}
use ftd_metrics_exporter.Poller.{Options, next_delay_ms}

pow_step : (i n : ℕ) → i * 2 ^ suc n ≡ i * 2 ^ n + i * 2 ^ n
pow_step i n = rw two-pow-succ (omega arith)

pow_le : (i n : ℕ) → i ≤ i * 2 ^ n
pow_le i zero = omega arith
pow_le i (suc n) = omega (arith, pow_step i n, pow_le i n)

-- With a poll interval up to the cap, the delay lies between the interval and the cap, is the
-- interval after a success, and never gets shorter as failures follow one another.
pub next_delay_ms_bounds :
    (o : Options) (n : ℕ)
    → o.interval_ms ≤ o.max_backoff_ms
    → (o.interval_ms ≤ next_delay_ms o n)
      × (next_delay_ms o n ≤ o.max_backoff_ms)
      × (next_delay_ms o 0 ≡ o.interval_ms)
      × (next_delay_ms o n ≤ next_delay_ms o (suc n))
unfolding next_delay_ms
next_delay_ms_bounds o n h = ground (arith, pow_le o.interval_ms n, pow_step o.interval_ms n)

-- With a poll interval above the cap, a failed cycle is followed by a shorter wait than a successful
-- one: every delay after a failure is the cap, below the interval.
pub next_delay_ms_shortens :
    (o : Options) (n : ℕ)
    → o.max_backoff_ms < o.interval_ms
    → (next_delay_ms o (suc n) ≡ o.max_backoff_ms) × (next_delay_ms o (suc n) < next_delay_ms o 0)
unfolding next_delay_ms
next_delay_ms_shortens o n h = ground (arith, pow_le o.interval_ms (suc n))
