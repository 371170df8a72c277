-- ===== src/Http/Budget.antt =====
-- src/http/budget.ts: the rolling-window request budget. A call of `acquire` is a chain of rounds,
-- each at a time of the clock; between two of them the call sleeps and other calls may run.
pub mod Window
pub mod Waiting
use ftd_metrics_exporter.Prelude.{
  ℕ, zero, suc, ◌+◌, ◌-◌, ◌++◌, Bool, true, false, ◌||◌, List, [], ◌∷◌, Option, none, some, max,
  ltb, leb, ◌==◌, if◌then◌else◌, length,
}

-- The options of the guard, and its variable `timestamps`, the oldest first.
pub record BudgetGuard : Type 0 where
  pub max_requests : ℕ
  pub window_ms : ℕ
  pub timestamps : List ℕ

-- `none` is the `RangeError`.
unfoldable pub create_budget_guard : ℕ → ℕ → Option BudgetGuard
create_budget_guard max_requests window_ms =
    if ltb max_requests 1
    then none
    else if window_ms == 0
    then none
    else some (record { max_requests = max_requests; window_ms = window_ms; timestamps = [] })

-- `now - timestamps[0] >= windowMs`, with the subtraction moved over, since these are not negative.
unfoldable pub prune_expired : (window_ms now : ℕ) → List ℕ → List ℕ
prune_expired window_ms now [] = []
prune_expired window_ms now (t ∷ ts) =
    if leb (t + window_ms) now then prune_expired window_ms now ts else t ∷ ts

-- One round of `acquire`: the request goes, or the call sleeps.
pub data Round : Type 0 where
  admitted : Round
  wait_for : ℕ → Round

abbrev pub wait_ms : (window_ms now : ℕ) → List ℕ → ℕ
wait_ms window_ms now [] = 1
wait_ms window_ms now (oldest ∷ _) = max (window_ms + oldest - now) 1

unfoldable pub acquire_round : BudgetGuard → ℕ → BudgetGuard × Round
acquire_round g now =
    let timestamps = prune_expired g.window_ms now g.timestamps in
    if ltb (length timestamps) g.max_requests
    then (record g { timestamps = timestamps ++ now ∷ [] }, admitted)
    else (record g { timestamps = timestamps }, wait_for (wait_ms g.window_ms now timestamps))

-- One call of `acquire` that no other call interrupts; `late` is how much longer each sleep takes
-- than it was asked to. The result holds the time of admission and whether `onDefer` fired.
unfoldable pub acquire :
    ℕ → BudgetGuard → (now : ℕ) → (late : ℕ → ℕ) → Bool → Option (BudgetGuard × ℕ × Bool)
acquire zero g now late deferred = none
acquire (suc fuel) g now late deferred =
    let (g', round) = acquire_round g now in
    elim round [
      | admitted ↦ some (g', now, deferred)
      | wait_for ms ↦ acquire fuel g' (now + ms + late now) late true
    ]
