-- ===== src/Http/Client.antt =====
-- src/http/client.ts: `get`, on top of the retry policy.
-- The transport, undici, is the argument `transport`: what each attempt by its number meets, with
-- `beforeAttempt` in front of it and the reading of the body; what fails there is classified by
-- `performAttempt` or by `withRetry`, with the same result. The metric hooks and the raw-response hook
-- are taken to return, and left out.
pub mod Laws
use ftd_metrics_exporter.Prelude.{
  ℕ, ◌+◌, ◌-◌, String, List, [], ◌∷◌, ◌&&◌, Option, none, some, ltb, leb, str_eq, if◌then◌else◌,
}
use ftd_metrics_exporter.Prelude.Int.{ℤ}
use ftd_metrics_exporter.Http.Errors.{
  HttpError, Cause, http, classify_network_error, classify_status_code,
}
use ftd_metrics_exporter.Http.RetryAfter.{parse_retry_after_ms}
use ftd_metrics_exporter.Http.Retry.{
  Attempt, responds, throws, Outcome, returned, thrown, type_error, Event, with_retry,
}

pub data HeaderValue : Type 0 where
  one : String → HeaderValue
  many : List String → HeaderValue

abbrev pub Headers : Type 0
Headers = List (String × HeaderValue)

unfoldable pub header : String → Headers → Option HeaderValue
header name [] = none
header name ((key, value) ∷ rest) = if str_eq key name then some value else header name rest

unfoldable pub first_header_value : Option HeaderValue → Option String
first_header_value none = none
first_header_value (some (one value)) = some value
first_header_value (some (many [])) = none
first_header_value (some (many (value ∷ _))) = some value

-- An `HttpResponse`, and what the transport gives.
pub record HttpResponse : Type 0 where
  pub status_code : ℕ
  pub headers : Headers
  pub body : String

-- Its status, headers and body are those of the response.
pub record AttemptResult : Type 0 where
  pub response : HttpResponse
  pub retry_after_ms : Option ℕ

unfoldable pub resolve_error : AttemptResult → Option HttpError
resolve_error r =
    if leb 200 r.response.status_code && ltb r.response.status_code 300
    then none
    else some (classify_status_code r.response.status_code r.retry_after_ms)

-- The deadline of a `get` is pushed out by the time spent in `beforeAttempt`; the attempt gets what
-- is left of it. Times are whole milliseconds, so that `Math.ceil` changes nothing.
unfoldable pub attempt_budget : (deadline wait_started_at wait_ended_at now : ℕ) → ℕ × ℕ
attempt_budget deadline wait_started_at wait_ended_at now =
    let extended = deadline + (wait_ended_at - wait_started_at) in (extended, extended - now)

module _ (date_parse : String → Option ℤ) (transport : ℕ → Attempt HttpResponse) (wall_now : ℕ → ℕ)
    (random : ℕ → ℕ) where
  abbrev pub attempt_result : HttpResponse → ℕ → AttemptResult
  attempt_result response now = record {
    response = response;
    retry_after_ms =
        parse_retry_after_ms date_parse (first_header_value (header "retry-after" response.headers))
          now;
  }

  unfoldable pub perform_attempt : ℕ → Attempt AttemptResult
  perform_attempt n = elim (transport n) [
    | throws cause ↦ throws (http (classify_network_error cause))
    | responds response ↦ responds (attempt_result response (wall_now n))
  ]

  abbrev pub strip : Outcome AttemptResult → Outcome HttpResponse
  strip (returned result) = returned result.response
  strip (thrown e) = thrown e
  strip type_error = type_error

  unfoldable pub get : Outcome HttpResponse × List Event
  get =
      let (outcome, events) = with_retry perform_attempt resolve_error random in
      (strip outcome, events)
