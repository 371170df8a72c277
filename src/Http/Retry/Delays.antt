-- ===== src/Http/Retry/Delays.antt =====
-- How long `withRetry` waits: src/http/retry.ts.
use ftd_metrics_exporter.Prelude.{
  ℕ, zero, suc, ◌+◌, ◌*◌, ◌≤◌, ◌<◌, ◌≡◌, List, Option, none, some, arith, All, Option-cases, inl,
  inr,
}
use ftd_metrics_exporter.Http.Errors.{HttpError, classify_network_error}
use ftd_metrics_exporter.Http.RetryAfter.{cap_delay_ms}
use ftd_metrics_exporter.Http.Retry.{
  random_unit, envelope, compute_backoff_ms, Attempt, responds, Outcome, Event, slept,
  fail_or_retry, response_delay, retry_loop, with_retry, max_attempts,
}
use ftd_metrics_exporter.Http.Retry.Laws.{Attempt-cases}

-- Full jitter: a backoff lies below its envelope, and so below the cap.
pub compute_backoff_ms-le : (r n : ℕ) → r < random_unit → compute_backoff_ms r n ≤ cap_delay_ms
unfolding compute_backoff_ms
compute_backoff_ms-le r n h =
    let small : envelope n ≤ cap_delay_ms = omega arith in
    let product : r * envelope n ≤ r * cap_delay_ms = grind arith in omega arith

-- A wait is no longer than the cap.
abbrev pub IsShort : Event → Type 0
IsShort (slept ms) = ms ≤ cap_delay_ms
IsShort _ = Unit

module _ {T : Type 0} (attempt : ℕ → Attempt T) (resolve_error : T → Option HttpError)
    (random : ℕ → ℕ) (unit : (n : ℕ) → random n < random_unit)
    (capped : (n : ℕ) (t : T) (e : HttpError) (ms : ℕ)
      → attempt n ≡ responds t
      → resolve_error t ≡ some e
      → e.retry_after_ms ≡ some ms
      → ms ≤ cap_delay_ms) where
  fail_or_retry-IsShort :
      (n delay : ℕ) (e : HttpError) (rest : Outcome T × List Event)
      → delay ≤ cap_delay_ms
      → All IsShort rest.1
      → All IsShort (fail_or_retry attempt resolve_error random n e delay rest).1
  unfolding fail_or_retry
  fail_or_retry-IsShort n delay e rest h k = ground arith

  response_delay-le :
      (n : ℕ) (t : T) (e : HttpError)
      → attempt n ≡ responds t
      → resolve_error t ≡ some e
      → response_delay attempt resolve_error random n e ≤ cap_delay_ms
  response_delay-le n t e r h = elim (Option-cases e.retry_after_ms) [
    | inl q ↦ rw q (compute_backoff_ms-le (random n) n (unit n))
    | inr (ms, q) ↦ rw q (capped n t e ms r h q)
  ]

  retry_loop-IsShort :
      (rounds n : ℕ) (last : Option HttpError)
      → All IsShort (retry_loop attempt resolve_error random rounds n last).1
  unfolding retry_loop
  retry_loop-IsShort zero n last = tt
  retry_loop-IsShort (suc rounds) n last = elim (Attempt-cases (attempt n)) [
    | inl (t, e) ↦ elim (Option-cases (resolve_error t)) [
      | inl fine ↦ rw (e, fine, retry_loop) (tt, tt)
      | inr (err, bad) ↦
          rw (e, bad, retry_loop)
            (fail_or_retry-IsShort n _ err _ (response_delay-le n t err e bad)
              (retry_loop-IsShort rounds (n + 1) (some err)))
    ]
    | inr (c, e) ↦
        rw (e, retry_loop)
          (fail_or_retry-IsShort n _ (classify_network_error c) _
            (compute_backoff_ms-le (random n) n (unit n))
            (retry_loop-IsShort rounds (n + 1) (some (classify_network_error c))))
  ]

  pub with_retry-IsShort : All IsShort (with_retry attempt resolve_error random).1
  unfolding with_retry
  with_retry-IsShort = retry_loop-IsShort max_attempts 0 none
