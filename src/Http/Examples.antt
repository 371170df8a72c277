-- ===== src/Http/Examples.antt =====
-- Runs of the HTTP layer, and the theorems about it at concrete inputs.
use ftd_metrics_exporter.Prelude.{
  ℕ, zero, suc, ◌^◌, ◌≤◌, ◌≡◌, ◌⊎◌, refl, String, List, [], ◌∷◌, Option, none, some, arith, length,
}
use ftd_metrics_exporter.Prelude.Int.{ℤ}
use ftd_metrics_exporter.Http.Errors.{error}
use ftd_metrics_exporter.Prelude.Text.{
  trim, trim_start, trim_end, is_space, all_digits, digits_value,
}
use ftd_metrics_exporter.Http.RetryAfter.{
  parse_trimmed, is_digits, seconds_to_ms, parse_retry_after_ms,
}
use ftd_metrics_exporter.Http.Retry.{Attempt, responds, throws}
use ftd_metrics_exporter.Http.Client.{HttpResponse, one, AttemptResult, perform_attempt, get}
use ftd_metrics_exporter.Http.Client.Laws.{IsAnswer, get-IsAnswer}
use ftd_metrics_exporter.Http.Spacing.{
  SpacingGuard, create_spacing_guard, wait, releases, SpacedFrom, NoEarlier, reserved,
  releases-SpacedFrom, releases_least,
}
use ftd_metrics_exporter.Http.Budget.{BudgetGuard}
use ftd_metrics_exporter.Http.Budget.Window.{WithinBudget, rounds, create_budget_guard-WithinBudget}
use ftd_metrics_exporter.Http.Budget as Budget
use ftd_metrics_exporter.Http.Limiter as Limiter
use ftd_metrics_exporter.Http.Limiter.{ConcurrencyLimiter, System}
use ftd_metrics_exporter.Http.Limiter.Laws.{Reach-bounded, initial}

abbrev date_parse : String → Option ℤ
date_parse _ = none

abbrev unavailable : ℕ
unavailable = 503

retry_after_run : parse_retry_after_ms date_parse (some " 120 ") 0 ≡ some 8_000
unfolding parse_retry_after_ms parse_trimmed is_digits trim trim_end trim_start is_space all_digits
    seconds_to_ms digits_value
retry_after_run = refl

-- A server that is unavailable twice and then answers.
abbrev answer : HttpResponse
answer = record { status_code = 200; headers = []; body = "{}" }

abbrev busy : HttpResponse
busy = record { status_code = unavailable; headers = ("retry-after", one "2") ∷ []; body = "" }

abbrev recovering : ℕ → Attempt HttpResponse
recovering zero = throws (error "AbortError" "aborted")
recovering (suc zero) = responds busy
recovering _ = responds answer

abbrev half : ℕ → ℕ
half _ = 2 ^ 52

abbrev midnight : ℕ → ℕ
midnight _ = 0

abbrev attempt : ℕ → Attempt AttemptResult
attempt = perform_attempt date_parse recovering midnight half

get-IsAnswer_example :
    IsAnswer date_parse recovering midnight half (get date_parse recovering midnight half).0
get-IsAnswer_example = get-IsAnswer date_parse recovering midnight half

abbrev absent : HttpResponse
absent = record { status_code = 404; headers = []; body = "" }

abbrev refusing : ℕ → Attempt HttpResponse
refusing _ = responds absent

-- Three calls of which the clock goes back at the last.
abbrev spaced : SpacingGuard
spaced = create_spacing_guard 3_000

abbrev calls : List ℕ
calls = 10 ∷ 20 ∷ 5 ∷ []

releases_run : releases spaced calls ≡ 10 ∷ 3_010 ∷ 6_010 ∷ []
unfolding releases wait create_spacing_guard
releases_run = refl

releases-SpacedFrom_example :
    SpacedFrom spaced.min_spacing_ms (reserved spaced) (releases spaced calls)
releases-SpacedFrom_example = releases-SpacedFrom spaced calls

abbrev schedule : List ℕ
schedule = 10 ∷ 4_000 ∷ 7_000 ∷ []

releases_least_example : NoEarlier (releases spaced calls) schedule
unfolding create_spacing_guard
releases_least_example =
    releases_least spaced calls schedule 0 (omega arith)
      (omega arith, (omega arith, (omega arith, tt)))
      (omega arith, (omega arith, (omega arith, tt)))

-- A budget of two requests a second.
abbrev budget : BudgetGuard
budget = record { max_requests = 2; window_ms = 1_000; timestamps = [] }

abbrev round_times : List ℕ
round_times = 0 ∷ 100 ∷ 200 ∷ 1_000 ∷ []

create_budget_guard-WithinBudget_example : WithinBudget 2 1_000 (rounds budget round_times []).1
unfolding Budget.create_budget_guard
create_budget_guard-WithinBudget_example =
    create_budget_guard-WithinBudget 2 1_000 budget round_times refl
      (omega arith, (omega arith, (omega arith, (omega arith, tt))))

abbrev spent : BudgetGuard
spent = record budget { timestamps = 0 ∷ 100 ∷ [] }

abbrev in_time : ℕ → ℕ
in_time _ = 0

-- A limiter for one call, which one call holds while another waits.
abbrev limiter : ConcurrencyLimiter
limiter = record { max_concurrent = 1; in_flight = 0; queue = [] }

abbrev one_call : System
one_call = Limiter.start (initial limiter) 7 (Limiter.acquire limiter 7)

Reach-bounded_example :
    (one_call.limiter.in_flight ≡ length one_call.running)
    × (length one_call.running ≤ 1)
    × ((one_call.limiter.queue ≡ []) ⊎ (length one_call.running ≡ 1))
unfolding Limiter.create_concurrency_limiter
Reach-bounded_example =
    Reach-bounded 1 limiter one_call refl
      (Limiter.Reach.next Limiter.Reach.here (Limiter.Step.enters 7))

abbrev crowded : System
crowded = record {
  limiter = record { max_concurrent = 1; in_flight = 1; queue = 8 ∷ 9 ∷ [] };
  running = 7 ∷ [];
}
