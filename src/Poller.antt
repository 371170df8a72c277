-- ===== src/Poller.antt =====
-- src/poller/poller.ts and src/poller/cache.ts: the poll loop and the cache that it fills.
-- A snapshot is of any type `S`. Times are whole milliseconds; metric values of a time are kept in
-- milliseconds, where the source divides by 1000. The gauges and counters of prom-client, and the
-- logger, enter as the values that were set and as the side effects in their order; `throws` says
-- which of them throw. `cache.set` and the gauges that are set inside the `try` do not throw.
pub mod Cycle
pub mod Backoff
pub mod Loop
mod Examples
use ftd_metrics_exporter.Prelude.{
  ℕ, zero, suc, ◌+◌, ◌-◌, ◌*◌, ◌/◌, ◌^◌, ◌++◌, String, Bool, true, false, not, ◌&&◌, List, [], ◌∷◌,
  Option, none, some, min, ltb, leb, ◌==◌, if◌then◌else◌, length, str_eq, includes, map,
}
use ftd_metrics_exporter.Prelude.Text.{concat, decimal}
use ftd_metrics_exporter.Http.Errors.{
  HttpErrorClass, PollErrorReason, HttpError, Cause, http, classify_network_error,
}

-- src/poller/cache.ts.
pub record CacheEntry (S : Type 0) : Type 0 where
  pub snapshots : List S
  pub fetched_at : ℕ

-- `cacheAgeSecondsCollector`, in milliseconds; the subtraction stops at 0 as `Math.max` does.
unfoldable pub cache_age : {S : Type 0} → Option (CacheEntry S) → (now : ℕ) → ℕ
cache_age none now = 0
cache_age (some entry) now = now - entry.fetched_at

-- The gauges and counters that the poller owns inside its `try` and `catch`; `poll_errors` holds
-- the reasons that were counted, the latest first.
pub record PollerMetrics : Type 0 where
  pub up : Bool
  pub last_successful_poll : ℕ
  pub devices : ℕ
  pub poll_errors : List PollErrorReason

pub record Options : Type 0 where
  pub interval_ms : ℕ
  pub max_backoff_ms : ℕ

-- `parse_errors` is the count of the `ParseErrorTracker`, `none` if the caller wired none.
pub record Poller (S : Type 0) : Type 0 where
  pub cache : Option (CacheEntry S)
  pub metrics : PollerMetrics
  pub consecutive_failures : ℕ
  pub parse_errors : Option ℕ

abbrev pub default_max_backoff_ms : ℕ
default_max_backoff_ms = 10 * 60 * 1000

-- `min(interval * 2 ** failures, max)`; doubles reach Infinity where this grows on, and the minimum
-- is the same.
unfoldable pub next_delay_ms : Options → (consecutive_failures : ℕ) → ℕ
next_delay_ms o consecutive_failures =
    if consecutive_failures == 0
    then o.interval_ms
    else min (o.interval_ms * 2 ^ consecutive_failures) o.max_backoff_ms

-- `createParseErrorTracker`.
unfoldable pub record_parse_error : ℕ → ℕ
record_parse_error count = count + 1

unfoldable pub consume_since_last_cycle : Option ℕ → ℕ × Option ℕ
consume_since_last_cycle none = (0, none)
consume_since_last_cycle (some count) = (count, some 0)

abbrev pub reason_label : PollErrorReason → String
reason_label PollErrorReason.auth = "auth"
reason_label PollErrorReason.rate_limited = "rate_limited"
reason_label PollErrorReason.timeout = "timeout"
reason_label PollErrorReason.network = "network"
reason_label PollErrorReason.http_5xx = "http_5xx"
reason_label PollErrorReason.parse = "parse"
reason_label PollErrorReason.unknown = "unknown"

abbrev pub poll_error_reason_values : List PollErrorReason
poll_error_reason_values =
    PollErrorReason.auth ∷ PollErrorReason.rate_limited ∷ PollErrorReason.timeout
    ∷ PollErrorReason.network ∷ PollErrorReason.http_5xx ∷ PollErrorReason.parse
    ∷ PollErrorReason.unknown ∷ []

unfoldable pub bounded_reason : PollErrorReason → PollErrorReason
bounded_reason reason =
    if includes (map reason_label poll_error_reason_values) (reason_label reason)
    then reason
    else PollErrorReason.unknown

-- `reason` is there exactly on a failure.
pub record PollCycleResult : Type 0 where
  pub success : Bool
  pub device_count : ℕ
  pub duration_ms : ℕ
  pub reason : Option PollErrorReason

-- How a call of `fetchSnapshot` settles.
pub data Fetched (S : Type 0) : Type 0 where
  resolves : List S → Fetched S
  rejects : Cause → Fetched S

-- What a cycle meets: the outcome of the fetch, the parse errors that it recorded, whether the signal
-- has fired by then, and the clock.
pub record CycleInput (S : Type 0) : Type 0 where
  pub fetched : Fetched S
  pub recorded : ℕ
  pub aborted : Bool
  pub started_at : ℕ
  pub ended_at : ℕ
  pub wall_ended_at : ℕ

-- What may throw behind the classification: the side effects, and `logger.error`.
pub data SideEffect : Type 0 where
  poll_total poll_duration log_cycle log_slow on_cycle_complete log_error : SideEffect

-- What was done: a side effect with the cycle's result, or a line of `logger.error` about one that threw.
pub data Effect : Type 0 where
  performed : SideEffect → PollCycleResult → Effect
  reported : SideEffect → Effect

-- How a piece of code ends.
pub data Exit : Type 0 where
  completes propagates : Exit

abbrev pub no_devices_error : ℕ → HttpError
no_devices_error parse_errors = record {
  name = "HttpError";
  error_class = HttpErrorClass.schema_parse;
  reason = PollErrorReason.parse;
  message = concat (
      "fetchSnapshot() produced zero devices after "
      ∷ decimal parse_errors
      ∷ " parse error(s) recorded this cycle — treated as a failed poll, not an empty snapshot"
      ∷ []);
  status_code = none;
  retry_after_ms = none;
}

abbrev pub is_nil : {S : Type 0} → List S → Bool
is_nil [] = true
is_nil (_ ∷ _) = false

-- A statement behind another one: it does not run if the first throws.
unfoldable pub and_then : List Effect × Exit → List Effect × Exit → List Effect × Exit
and_then (es, completes) (fs, exit) = (es ++ fs, exit)
and_then (es, propagates) rest = (es, propagates)

-- `try` and `catch`.
unfoldable pub catching : List Effect × Exit → List Effect × Exit → List Effect × Exit
catching (es, completes) handler = (es, completes)
catching (es, propagates) (fs, exit) = (es ++ fs, exit)

module _ (o : Options) (throws : SideEffect → Bool) where
  -- A call that has its effect or throws.
  abbrev pub call : SideEffect → Effect → List Effect × Exit
  call e effect = if throws e then ([], propagates) else (effect ∷ [], completes)

  unfoldable pub safely : SideEffect → PollCycleResult → List Effect × Exit
  safely e r =
      catching (call e (performed e r))
        (catching (call SideEffect.log_error (reported e)) ([], completes))

  -- The statements behind the classification, in their order.
  abbrev pub effects_of : PollCycleResult → List SideEffect
  effects_of r =
      SideEffect.poll_total
      ∷ SideEffect.poll_duration
      ∷ SideEffect.log_cycle
      ∷ ((if ltb o.interval_ms r.duration_ms then SideEffect.log_slow ∷ [] else [])
          ++ SideEffect.on_cycle_complete ∷ [])

  unfoldable pub all_safely : List SideEffect → PollCycleResult → List Effect × Exit
  all_safely [] r = ([], completes)
  all_safely (e ∷ es) r = and_then (safely e r) (all_safely es r)

  unfoldable pub side_effects : PollCycleResult → List Effect × Exit
  side_effects r = all_safely (effects_of r) r

module _ {S : Type 0} where
  -- The parse errors that a fetch records come in before the cycle looks at them.
  unfoldable pub record_all : Poller S → ℕ → Poller S
  record_all p recorded = elim p.parse_errors [
    | none ↦ p
    | some count ↦ record p { parse_errors = some (count + recorded) }
  ]

  unfoldable pub succeed : Poller S → List S → CycleInput S → Poller S × PollCycleResult
  succeed p snapshots i = (
    record p {
      cache = some (record { snapshots = snapshots; fetched_at = i.ended_at });
      metrics = record p.metrics {
        up = true;
        last_successful_poll = i.wall_ended_at;
        devices = length snapshots;
      };
      consecutive_failures = 0;
    },
    record {
      success = true;
      device_count = length snapshots;
      duration_ms = i.ended_at - i.started_at;
      reason = none;
    },
  )

  -- The `catch` of a cycle that is not aborted.
  unfoldable pub fail : Poller S → Cause → CycleInput S → Poller S × PollCycleResult
  fail p cause i =
      let reason = bounded_reason (classify_network_error cause).reason in
      (
        record p {
          metrics = record p.metrics { up = false; poll_errors = reason ∷ p.metrics.poll_errors };
          consecutive_failures = p.consecutive_failures + 1;
        },
        record {
          success = false;
          device_count = 0;
          duration_ms = i.ended_at - i.started_at;
          reason = some reason;
        },
      )

  -- The `try` behind a fetch that resolved, not aborted.
  unfoldable pub accept : Poller S → List S → CycleInput S → Poller S × PollCycleResult
  accept p snapshots i =
      let (parse_errors, tracker) = consume_since_last_cycle p.parse_errors in
      let p' : Poller S = record p { parse_errors = tracker } in
      if is_nil snapshots && ltb 0 parse_errors
      then fail p' (http (no_devices_error parse_errors)) i
      else succeed p' snapshots i

  unfoldable pub settle : Poller S → Fetched S → CycleInput S → Poller S × PollCycleResult
  settle p (resolves snapshots) i = accept p snapshots i
  settle p (rejects cause) i = fail p cause i

  module _ (o : Options) (throws : SideEffect → Bool) where
    -- `runCycle`, with its side effects and whether it rejects. A cycle that is aborted leaves no trace
    -- but in the tracker.
    unfoldable pub run_cycle : Poller S → CycleInput S → Poller S × List Effect × Exit
    run_cycle p i =
        let (p', r) = settle (record_all p i.recorded) i.fetched i in
        let (effects, exit) = side_effects o throws r in
        if i.aborted then (record_all p i.recorded, [], completes) else (p', effects, exit)

    -- `loop` behind the jitter: cycles until the signal fires, with the delays between them. It goes on
    -- in the same way after a cycle that rejects.
    unfoldable pub loop : Poller S → List (CycleInput S) → Poller S × List ℕ
    loop p [] = (p, [])
    loop p (i ∷ is) =
        let p' : Poller S = (run_cycle p i).0 in
        let delay = next_delay_ms o p'.consecutive_failures in
        let rest = loop p' is in if i.aborted then (p', []) else (rest.0, delay ∷ rest.1)
