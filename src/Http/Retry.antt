-- ===== src/Http/Retry.antt =====
-- src/http/retry.ts, `withRetry` and `computeBackoffMs`.
-- What the surroundings decide is an argument: the outcome of each attempt by its number, and the
-- values of `Math.random()`, as numerators over 2 ^ 53. Delays are whole milliseconds. Beside its
-- outcome the loop returns what it did, in order.
pub mod Laws
pub mod Delays
use ftd_metrics_exporter.Prelude.{
  ℕ, zero, suc, ◌+◌, ◌-◌, ◌*◌, ◌/◌, ◌^◌, String, List, [], ◌∷◌, ◌++◌, not, ◌||◌, Option, none, some,
  min, ◌==◌, if◌then◌else◌,
}
use ftd_metrics_exporter.Prelude.Text.{concat}
use ftd_metrics_exporter.Http.Errors.{HttpError, Cause, is_retryable, classify_network_error}
use ftd_metrics_exporter.Http.RetryAfter.{cap_delay_ms}

abbrev pub max_attempts : ℕ
max_attempts = 3

abbrev pub base_delay_ms : ℕ
base_delay_ms = 500

abbrev pub random_unit : ℕ
random_unit = 2 ^ 53

abbrev pub envelope : ℕ → ℕ
envelope attempt_number = min cap_delay_ms (base_delay_ms * 2 ^ attempt_number)

unfoldable pub compute_backoff_ms : (random : ℕ) (attempt_number : ℕ) → ℕ
compute_backoff_ms random attempt_number = random * envelope attempt_number / random_unit

-- The constructor of `RetriesExhaustedError`.
unfoldable pub retries_exhausted_error : HttpError → HttpError
retries_exhausted_error last_error = record {
  name = "RetriesExhaustedError";
  error_class = last_error.error_class;
  reason = last_error.reason;
  message = concat ("retries exhausted: " ∷ last_error.message ∷ []);
  status_code = last_error.status_code;
  retry_after_ms = last_error.retry_after_ms;
}

-- One call of `attempt()`.
pub data Attempt (T : Type 0) : Type 0 where
  responds : T → Attempt T
  throws : Cause → Attempt T

-- How `withRetry` ends; `type_error` is what `new RetriesExhaustedError(undefined)` would throw.
pub data Outcome (T : Type 0) : Type 0 where
  returned : T → Outcome T
  thrown : HttpError → Outcome T
  type_error : Outcome T

pub data Event : Type 0 where
  attempted : ℕ → Event
  retrying : HttpError → ℕ → ℕ → Event
  slept : ℕ → Event

module _ {T : Type 0} (attempt : ℕ → Attempt T) (resolve_error : T → Option HttpError)
    (random : ℕ → ℕ) where
  abbrev pub Run : Type 0
  Run = Outcome T × List Event

  abbrev pub prepend : List Event → Run → Run
  prepend es (outcome, events) = (outcome, es ++ events)

  -- An attempt failed; `rest` is the loop from the next attempt on.
  unfoldable pub fail_or_retry : ℕ → HttpError → (delay_ms : ℕ) → Run → Run
  fail_or_retry attempt_number e delay_ms rest =
      if not (is_retryable e) || attempt_number == max_attempts - 1
      then (
        if is_retryable e then thrown (retries_exhausted_error e) else thrown e,
        attempted attempt_number ∷ [],
      )
      else prepend
          (attempted attempt_number
            ∷ retrying e (attempt_number + 1) delay_ms
            ∷ slept delay_ms
            ∷ [])
          rest

  -- The delay after a response that counts as an error.
  abbrev pub response_delay : ℕ → HttpError → ℕ
  response_delay attempt_number e = elim e.retry_after_ms [
    | some ms ↦ ms
    | none ↦ compute_backoff_ms (random attempt_number) attempt_number
  ]

  abbrev pub after_loop : Option HttpError → Outcome T
  after_loop none = type_error
  after_loop (some e) = thrown (retries_exhausted_error e)

  -- The `for` loop, with the rounds that are left.
  unfoldable pub retry_loop : ℕ → ℕ → Option HttpError → Run
  retry_loop zero attempt_number last_error = (after_loop last_error, [])
  retry_loop (suc rounds) attempt_number last_error = elim (attempt attempt_number) [
    | throws cause ↦
        fail_or_retry attempt_number (classify_network_error cause)
          (compute_backoff_ms (random attempt_number) attempt_number)
          (retry_loop rounds (attempt_number + 1) (some (classify_network_error cause)))
    | responds response ↦ elim (resolve_error response) [
      | none ↦ (returned response, attempted attempt_number ∷ [])
      | some e ↦
          fail_or_retry attempt_number e (response_delay attempt_number e)
            (retry_loop rounds (attempt_number + 1) (some e))
    ]
  ]

  unfoldable pub with_retry : Run
  with_retry = retry_loop max_attempts 0 none
