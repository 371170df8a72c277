-- ===== src/Http/Budget/Window.antt =====
-- No window of the length of the budget ever holds more requests than it allows.
use mathlib.Core.Path.{subst₂}
use ftd_metrics_exporter.Prelude.{
  ℕ, suc, ◌+◌, ◌++◌, ◌≤◌, ◌≡◌, refl, sym, ◌∙◌, List, [], ◌∷◌, some, ltb, if◌then◌else◌, length,
  arith,
}
use ftd_metrics_exporter.Http.Budget.{
  BudgetGuard, create_budget_guard, prune_expired, Round, admitted, wait_for, acquire_round,
}

-- How many of the times lie in the window of length `w` that ends at `now`.
abbrev pub recent : ℕ → ℕ → List ℕ → ℕ
recent w now [] = 0
recent w now (t ∷ ts) = if ltb now (t + w) then suc (recent w now ts) else recent w now ts

-- The admissions of a log, the latest first: at each of them, the window that ends there holds at
-- most `n` admissions, itself among them.
abbrev pub WithinBudget : ℕ → ℕ → List ℕ → Type 0
WithinBudget n w [] = Unit
WithinBudget n w (t ∷ older) = (recent w t (t ∷ older) ≤ n) × WithinBudget n w older

abbrev pub AscendingFrom : ℕ → List ℕ → Type 0
AscendingFrom from [] = Unit
AscendingFrom from (t ∷ ts) = (from ≤ t) × AscendingFrom t ts

abbrev log_round : Round → ℕ → List ℕ → List ℕ
log_round admitted now log = now ∷ log
log_round (wait_for ms) now log = log

-- The rounds of all callers in the order in which they happen, and the log of the admissions.
unfoldable pub rounds : BudgetGuard → List ℕ → List ℕ → BudgetGuard × List ℕ
rounds g [] log = (g, log)
rounds g (now ∷ nows) log =
    let (g', round) = acquire_round g now in rounds g' nows (log_round round now log)

recent-append : (w t : ℕ) (xs ys : List ℕ) → recent w t (xs ++ ys) ≡ recent w t xs + recent w t ys
recent-append w t [] ys = omega arith
recent-append w t (x ∷ xs) ys = ground (arith, recent-append w t xs ys)

recent-le-length : (w t : ℕ) (xs : List ℕ) → recent w t xs ≤ length xs
recent-le-length w t [] = omega arith
recent-le-length w t (x ∷ xs) = ground (arith, recent-le-length w t xs)

recent-prune_expired :
    (w now t : ℕ) (ts : List ℕ) → now ≤ t → recent w t (prune_expired w now ts) ≡ recent w t ts
unfolding prune_expired
recent-prune_expired w now t [] h = refl
recent-prune_expired w now t (x ∷ ts) h = ground (arith, recent-prune_expired w now t ts)

-- From the time `last` on the guard counts what the log holds.
abbrev Tracks : BudgetGuard → ℕ → List ℕ → Type 0
Tracks g last log =
    (t : ℕ) → last ≤ t → recent g.window_ms t log ≡ recent g.window_ms t g.timestamps

abbrev KeepsOptions : BudgetGuard → BudgetGuard → Type 0
KeepsOptions g h = (h.max_requests ≡ g.max_requests) × (h.window_ms ≡ g.window_ms)

module _ (g : BudgetGuard) (last now : ℕ) (log : List ℕ) (later : last ≤ now)
    (tracks : Tracks g last log) where
  round-Tracks : Tracks (acquire_round g now).0 now (log_round (acquire_round g now).1 now log)
  unfolding acquire_round
  round-Tracks t h = ground (
    arith,
    tracks t,
    recent-prune_expired g.window_ms now t g.timestamps h,
    recent-append g.window_ms t (prune_expired g.window_ms now g.timestamps) (now ∷ []),
  )

  round-WithinBudget :
      WithinBudget g.max_requests g.window_ms log
      → WithinBudget g.max_requests g.window_ms (log_round (acquire_round g now).1 now log)
  unfolding acquire_round
  round-WithinBudget b = ground (
    arith,
    tracks now,
    recent-prune_expired g.window_ms now now g.timestamps,
    recent-le-length g.window_ms now (prune_expired g.window_ms now g.timestamps),
  )

round-options : (g : BudgetGuard) (now : ℕ) → KeepsOptions g (acquire_round g now).0
unfolding acquire_round
round-options g now = ground arith

rounds-WithinBudget :
    (g : BudgetGuard) (last n w : ℕ) (nows log : List ℕ)
    → g.max_requests ≡ n
    → g.window_ms ≡ w
    → AscendingFrom last nows
    → Tracks g last log
    → WithinBudget n w log
    → WithinBudget n w (rounds g nows log).1
unfolding rounds
rounds-WithinBudget g last n w [] log en ew a tr b = b
rounds-WithinBudget g last n w (now ∷ nows) log en ew a tr b =
    rounds-WithinBudget (acquire_round g now).0 now n w nows
      (log_round (acquire_round g now).1 now log) ((round-options g now).0 ∙ en)
      ((round-options g now).1 ∙ ew) a.1 (round-Tracks g last now log a.0 tr)
      (subst₂ (λ m v. WithinBudget m v (log_round (acquire_round g now).1 now log)) en ew
        (round-WithinBudget g last now log a.0 tr
          (subst₂ (λ m v. WithinBudget m v log) (sym en) (sym ew) b)))

create_budget_guard_fields :
    (n w : ℕ) (g : BudgetGuard)
    → create_budget_guard n w ≡ some g
    → (g.max_requests ≡ n) × (g.window_ms ≡ w) × (g.timestamps ≡ []) × (1 ≤ n) × (1 ≤ w)
unfolding create_budget_guard
create_budget_guard_fields n w g e = ground arith

-- For a guard that was created, whatever callers run and however their rounds interleave, as long
-- as the clock does not go back: at every admission at most `max_requests` requests were admitted
-- in the window that ends there.
pub create_budget_guard-WithinBudget :
    (n w : ℕ) (g : BudgetGuard) (nows : List ℕ)
    → create_budget_guard n w ≡ some g
    → AscendingFrom 0 nows
    → WithinBudget n w (rounds g nows []).1
create_budget_guard-WithinBudget n w g nows e a =
    let (en, ew, et, _, _) = create_budget_guard_fields n w g e in
    rounds-WithinBudget g 0 n w nows [] en ew a (λ t h. rw et refl) tt
