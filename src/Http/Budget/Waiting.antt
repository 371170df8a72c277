-- ===== src/Http/Budget/Waiting.antt =====
-- A call that no other call interrupts waits at most once.
use ftd_metrics_exporter.Prelude.{
  ℕ, suc, ◌+◌, ◌-◌, ◌++◌, ◌≤◌, ◌<◌, ◌≡◌, true, false, List, [], ◌∷◌, some, ltb, length,
  length-append, arith, Bool-cases, ◌⊎◌, inl, inr, All, max,
}
use ftd_metrics_exporter.Http.Budget.{
  BudgetGuard, prune_expired, admitted, wait_for, wait_ms, acquire_round, acquire,
}

-- Between two rounds: the budget is not exceeded, and no request was admitted in the future.
pub record IsSound (now : ℕ) (g : BudgetGuard) : Type 0 where
  pub positive : 1 ≤ g.max_requests
  pub within : length g.timestamps ≤ g.max_requests
  pub past : All (λ t. t ≤ now) g.timestamps

length-prune_expired-le : (w now : ℕ) (ts : List ℕ) → length (prune_expired w now ts) ≤ length ts
unfolding prune_expired
length-prune_expired-le w now [] = omega arith
length-prune_expired-le w now (t ∷ ts) = ground (arith, length-prune_expired-le w now ts)

prune_expired-All :
    (w now b : ℕ) (ts : List ℕ) → All (λ t. t ≤ b) ts → All (λ t. t ≤ b) (prune_expired w now ts)
unfolding prune_expired
prune_expired-All w now b [] h = tt
prune_expired-All w now b (t ∷ ts) h = ground (arith, prune_expired-All w now b ts h.1)

All-concat : (b x : ℕ) (ts : List ℕ) → All (λ t. t ≤ b) ts → x ≤ b → All (λ t. t ≤ b) (ts ++ x ∷ [])
All-concat b x [] h k = (k, tt)
All-concat b x (t ∷ ts) h k = (h.0, All-concat b x ts h.1 k)

-- After the wait that the guard asks for the oldest request has left the window.
prune_expired_after_wait :
    (w now late : ℕ) (ts : List ℕ)
    → 1 ≤ length ts
    → All (λ t. t ≤ now) ts
    → suc (length (prune_expired w (now + wait_ms w now ts + late) ts)) ≤ length ts
unfolding prune_expired
prune_expired_after_wait w now late [] h k = absurd (omega arith)
prune_expired_after_wait w now late (t ∷ ts) h k =
    ground (arith, length-prune_expired-le w (now + max (w + t - now) 1 + late) ts)

-- A round keeps the guard sound.
pub acquire_round-IsSound :
    (g : BudgetGuard) (now : ℕ) → IsSound now g → IsSound now (acquire_round g now).0
unfolding acquire_round
acquire_round-IsSound g now v = ground (
  arith,
  length-append (prune_expired g.window_ms now g.timestamps) (now ∷ []),
  length-prune_expired-le g.window_ms now g.timestamps,
  All-concat now now (prune_expired g.window_ms now g.timestamps),
  prune_expired-All g.window_ms now now g.timestamps,
)

abbrev pruned : BudgetGuard → ℕ → List ℕ
pruned g now = prune_expired g.window_ms now g.timestamps

acquire_round-admits :
    (g : BudgetGuard) (now : ℕ)
    → ltb (length (pruned g now)) g.max_requests ≡ true
    → acquire_round g now ≡ (record g { timestamps = pruned g now ++ now ∷ [] }, admitted)
unfolding acquire_round
acquire_round-admits g now h = rw h

acquire_round-waits :
    (g : BudgetGuard) (now : ℕ)
    → ltb (length (pruned g now)) g.max_requests ≡ false
    → acquire_round g now
      ≡ (record g { timestamps = pruned g now }, wait_for (wait_ms g.window_ms now (pruned g now)))
unfolding acquire_round
acquire_round-waits g now h = rw h

-- The second round of a call whose first one had to wait.
second_round :
    (g : BudgetGuard) (now late : ℕ)
    → IsSound now g
    → ltb (length (pruned g now)) g.max_requests ≡ false
    → ltb
        (length (
          prune_expired g.window_ms
            (now + wait_ms g.window_ms now (pruned g now) + late)
            (pruned g now)))
        g.max_requests
      ≡ true
second_round g now late v full = ground (
  arith,
  length-prune_expired-le g.window_ms now g.timestamps,
  prune_expired_after_wait g.window_ms now late (pruned g now),
  prune_expired-All g.window_ms now now g.timestamps,
)

-- While the budget is not exceeded and no request was admitted in the future, a call that nothing
-- interrupts is admitted in its first round, at once and without `onDefer`, or after one sleep,
-- with `onDefer`, in its second, however late the sleep ends; it never runs out of two rounds.
pub acquire_lem :
    (g : BudgetGuard) (now : ℕ) (late : ℕ → ℕ)
    → IsSound now g
    → ((g' : BudgetGuard) × (acquire 2 g now late false ≡ some (g', now, false)))
      ⊎ ((g' : BudgetGuard) × (at : ℕ) × (acquire 2 g now late false ≡ some (g', at, true))
          × (now < at))
unfolding acquire
acquire_lem g now late v = elim (Bool-cases (ltb (length (pruned g now)) g.max_requests)) [
  | inl free ↦ inl (
    record g { timestamps = pruned g now ++ now ∷ [] },
    ground (arith, acquire_round-admits g now free),
  )
  | inr full ↦
      let g' : BudgetGuard = record g { timestamps = pruned g now } in
      let at : ℕ = now + wait_ms g.window_ms now (pruned g now) + late now in
      inr (
        record g { timestamps = pruned g' at ++ at ∷ [] },
        at,
        ground (
          arith,
          acquire_round-waits g now full,
          acquire_round-admits g' at (second_round g now (late now) v full),
        ),
        ground arith,
      )
]
