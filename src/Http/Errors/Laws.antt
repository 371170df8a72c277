-- ===== src/Http/Errors/Laws.antt =====
-- What the classification of src/http/errors.ts gives on every status code.
use ftd_metrics_exporter.Prelude.{ℕ, ◌≤◌, ◌≡◌, ◌↔◌, ◌⊎◌, Option, none, true, false, arith}
use ftd_metrics_exporter.Http.Errors.{HttpErrorClass, is_retryable, classify_status_code}

-- A response is retried exactly when its status is 429 or at least 500; it is classed as a refusal
-- of the credentials exactly when its status is 401 or 403; and its `Retry-After` is kept on the
-- statuses that are retried and dropped on all others.
pub classify_status_code_lem :
    (s : ℕ) (r : Option ℕ)
    → ((is_retryable (classify_status_code s r) ≡ true) ↔ ((s ≡ 429) ⊎ (500 ≤ s)))
      × (((classify_status_code s r).error_class ≡ HttpErrorClass.auth_fatal)
          ↔ ((s ≡ 401) ⊎ (s ≡ 403)))
      × (((is_retryable (classify_status_code s r) ≡ true)
            × ((classify_status_code s r).retry_after_ms ≡ r))
          ⊎ ((is_retryable (classify_status_code s r) ≡ false)
              × ((classify_status_code s r).retry_after_ms ≡ none)))
unfolding is_retryable classify_status_code
classify_status_code_lem s r = ground arith
