-- ===== src/Http/Errors.antt =====
-- src/http/errors.ts: the error taxonomy. `cause`, which no code reads, and stacks are left out.
pub mod Laws
use ftd_metrics_exporter.Prelude.{
  ℕ, String, List, [], ◌∷◌, Bool, true, false, ◌&&◌, ◌||◌, Option, none, some, ltb, leb, ◌==◌,
  if◌then◌else◌, includes,
}
use ftd_metrics_exporter.Prelude.Text.{concat, decimal}

pub data HttpErrorClass : Type 0 where
  fatal_config auth_recoverable auth_fatal rate_limited transient schema_parse : HttpErrorClass

pub data PollErrorReason : Type 0 where
  auth rate_limited timeout network http_5xx parse unknown : PollErrorReason

-- An `HttpError`, or a `RetriesExhaustedError`, which differs by its `name`.
pub record HttpError : Type 0 where
  pub name : String
  pub error_class : HttpErrorClass
  pub reason : PollErrorReason
  pub message : String
  pub status_code : Option ℕ
  pub retry_after_ms : Option ℕ

unfoldable pub is_retryable : HttpError → Bool
is_retryable error = elim error.error_class [
  | HttpErrorClass.transient ↦ true
  | HttpErrorClass.rate_limited ↦ true
  | _ ↦ false
]

unfoldable pub classify_status_code : ℕ → Option ℕ → HttpError
classify_status_code status_code retry_after_ms =
    if status_code == 429
    then record {
      name = "HttpError";
      error_class = HttpErrorClass.rate_limited;
      reason = PollErrorReason.rate_limited;
      message = "upstream returned 429 Too Many Requests";
      status_code = some status_code;
      retry_after_ms = retry_after_ms;
    }
    else if status_code == 401 || status_code == 403
    then record {
      name = "HttpError";
      error_class = HttpErrorClass.auth_fatal;
      reason = PollErrorReason.auth;
      message = concat ("upstream returned " ∷ decimal status_code ∷ []);
      status_code = some status_code;
      retry_after_ms = none;
    }
    else if leb 500 status_code
    then record {
      name = "HttpError";
      error_class = HttpErrorClass.transient;
      reason = PollErrorReason.http_5xx;
      message = concat ("upstream returned " ∷ decimal status_code ∷ []);
      status_code = some status_code;
      retry_after_ms = retry_after_ms;
    }
    else if leb 300 status_code && ltb status_code 400
    then record {
      name = "HttpError";
      error_class = HttpErrorClass.schema_parse;
      reason = PollErrorReason.unknown;
      message = concat (
          "upstream returned an unfollowed redirect ("
          ∷ decimal status_code
          ∷ ") — this client never follows redirects for authenticated requests (DESIGN.md §9.1)"
          ∷ []);
      status_code = some status_code;
      retry_after_ms = none;
    }
    else record {
      name = "HttpError";
      error_class = HttpErrorClass.schema_parse;
      reason = PollErrorReason.unknown;
      message = concat ("upstream returned unexpected status " ∷ decimal status_code ∷ []);
      status_code = some status_code;
      retry_after_ms = none;
    }

-- What a `catch` receives: an `HttpError`, another `Error`, or a value of another type, for which
-- `rendered` is what `String(value)` gives, or `none` where that throws.
pub data Cause : Type 0 where
  http : HttpError → Cause
  error : (name message : String) → Cause
  other : (rendered : Option String) (type_name : String) → Cause

unfoldable pub safe_stringify : Option String → String → String
safe_stringify (some text) type_name = text
safe_stringify none type_name = concat ("[unstringifiable value of type " ∷ type_name ∷ "]" ∷ [])

abbrev pub abort_error_names : List String
abort_error_names = "AbortError" ∷ "TimeoutError" ∷ []

abbrev pub network_error : String → HttpError
network_error message = record {
  name = "HttpError";
  error_class = HttpErrorClass.transient;
  reason = PollErrorReason.network;
  message = message;
  status_code = none;
  retry_after_ms = none;
}

unfoldable pub classify_network_error : Cause → HttpError
classify_network_error (http e) = e
classify_network_error (error name message) =
    if includes abort_error_names name
    then record {
      name = "HttpError";
      error_class = HttpErrorClass.transient;
      reason = PollErrorReason.timeout;
      message = "request aborted (timeout budget exceeded)";
      status_code = none;
      retry_after_ms = none;
    }
    else network_error message
classify_network_error (other rendered type_name) =
    network_error (safe_stringify rendered type_name)
