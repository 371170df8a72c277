-- ===== src/Http/Client/Laws.antt =====
-- What a caller of `get` meets: src/http/client.ts.
use ftd_metrics_exporter.Prelude.{
  ℕ, ◌≤◌, ◌<◌, ◌≡◌, ◌≢◌, sym, ◌∙◌, ◌⊎◌, inl, inr, String, [], ◌∷◌, false, Option, none, some, arith,
  All,
}
use ftd_metrics_exporter.Prelude.Int.{ℤ}
use ftd_metrics_exporter.Http.Errors.{HttpError, is_retryable, classify_status_code}
use ftd_metrics_exporter.Http.Errors.Laws.{classify_status_code_lem}
use ftd_metrics_exporter.Http.RetryAfter.{parse_retry_after_ms, parse_retry_after_ms-le}
use ftd_metrics_exporter.Http.Retry.{
  random_unit, Attempt, responds, Outcome, returned, thrown, type_error, attempted, with_retry,
  retry_loop, fail_or_retry, max_attempts,
}
use ftd_metrics_exporter.Http.Retry.Laws.{with_retry_settles, SettlesAt}
use ftd_metrics_exporter.Http.Retry.Delays.{IsShort, with_retry-IsShort}
use ftd_metrics_exporter.Http.Client.{
  HttpResponse, AttemptResult, resolve_error, first_header_value, header, attempt_result,
  perform_attempt, strip, get,
}

module _ (date_parse : String → Option ℤ) (transport : ℕ → Attempt HttpResponse) (wall_now : ℕ → ℕ)
    (random : ℕ → ℕ) where
  -- The response that settled a call was received and is a success.
  abbrev pub IsAnswer : Outcome HttpResponse → Type 0
  IsAnswer (returned r) =
      (200 ≤ r.status_code)
      × (r.status_code < 300)
      × ((n : ℕ) × (n < max_attempts) × (transport n ≡ responds r))
  IsAnswer (thrown e) = Unit
  IsAnswer type_error = ⊥

  perform_attempt-eq-responds :
      (n : ℕ) (t : AttemptResult)
      → perform_attempt date_parse transport wall_now random n ≡ responds t
      → transport n ≡ responds t.response
  unfolding perform_attempt
  perform_attempt-eq-responds n t e = ground arith

  resolve_error-eq-none :
      (t : AttemptResult)
      → resolve_error t ≡ none
      → (200 ≤ t.response.status_code) × (t.response.status_code < 300)
  unfolding resolve_error
  resolve_error-eq-none t e = ground arith

  settles-IsAnswer :
      (n : ℕ) (o : Outcome AttemptResult)
      → n < max_attempts
      → SettlesAt (perform_attempt date_parse transport wall_now random) resolve_error random n o
      → IsAnswer (strip date_parse transport wall_now random o)
  settles-IsAnswer n o h (inl (t, e, fine, same)) = rw same (
    (resolve_error-eq-none t fine).0,
    (resolve_error-eq-none t fine).1,
    (n, h, perform_attempt-eq-responds n t e),
  )
  settles-IsAnswer n o h (inr (inl (e, f, r, same))) = rw same tt
  settles-IsAnswer n o h (inr (inr (e, f, r, l, same))) = rw same tt

  -- A call returns only a response with a status from 200 to 299 that one of its attempts received,
  -- and never ends with the `TypeError` behind the loop.
  pub get-IsAnswer : IsAnswer (get date_parse transport wall_now random).0
  unfolding get
  get-IsAnswer =
      let (n, _, h, _, _, _, _, settled) =
        with_retry_settles (perform_attempt date_parse transport wall_now random) resolve_error
          random in
      settles-IsAnswer n _ h settled

  resolve_error-le :
      (t : AttemptResult) (e : HttpError) (ms : ℕ)
      → resolve_error t ≡ some e
      → e.retry_after_ms ≡ some ms
      → t.retry_after_ms ≡ some ms
  unfolding resolve_error classify_status_code
  resolve_error-le t e ms h k = ground arith

  perform_attempt-retry_after :
      (n : ℕ) (t : AttemptResult)
      → perform_attempt date_parse transport wall_now random n ≡ responds t
      → t.retry_after_ms
        ≡ parse_retry_after_ms date_parse
            (first_header_value (header "retry-after" t.response.headers))
            (wall_now n)
  unfolding perform_attempt
  perform_attempt-retry_after n t e = ground arith

  -- With `Math.random()` below one, a call never waits longer than eight seconds between two
  -- attempts, whatever `Retry-After` the server sends.
  pub get-IsShort :
      ((n : ℕ) → random n < random_unit) → All IsShort (get date_parse transport wall_now random).1
  unfolding get
  get-IsShort unit =
      with_retry-IsShort (perform_attempt date_parse transport wall_now random) resolve_error random
        unit
        λ n t e ms r h k.
          parse_retry_after_ms-le date_parse _ (wall_now n) ms
            (sym (perform_attempt-retry_after n t r) ∙ resolve_error-le t e ms h k)

  resolve_error-refused :
      (t : AttemptResult)
      → (t.response.status_code < 200) ⊎ (300 ≤ t.response.status_code)
      → resolve_error t ≡ some (classify_status_code t.response.status_code t.retry_after_ms)
  unfolding resolve_error
  resolve_error-refused t bad = ground arith

  classify-refused :
      (t : AttemptResult)
      → t.response.status_code ≢ 429
      → t.response.status_code < 500
      → is_retryable (classify_status_code t.response.status_code t.retry_after_ms) ≡ false
  classify-refused t calm low =
      ground (arith, classify_status_code_lem t.response.status_code t.retry_after_ms)

  -- A response with a status that is no success, not 429 and below 500 ends the call at once: one
  -- attempt, no wait, and the error of its status is thrown as it is.
  pub get-refused :
      (r : HttpResponse)
      → transport 0 ≡ responds r
      → (r.status_code < 200) ⊎ (300 ≤ r.status_code)
      → r.status_code ≢ 429
      → r.status_code < 500
      → get date_parse transport wall_now random ≡ (
        thrown (
            classify_status_code r.status_code
              (attempt_result date_parse transport wall_now random r (wall_now 0)).retry_after_ms),
        attempted 0 ∷ [],
      )
  unfolding get with_retry retry_loop perform_attempt fail_or_retry
  get-refused r sent bad calm low =
      let t = attempt_result date_parse transport wall_now random r (wall_now 0) in
      rw (
        sent,
        retry_loop,
        perform_attempt,
        resolve_error-refused t bad,
        classify-refused t calm low,
      )
