-- ===== src/Http/Retry/Laws.antt =====
-- What `withRetry` does, stated without its loop: src/http/retry.ts.
use mathlib.Core.Path.{subst}
use native.Mathlib.Decide.{ℕ_discrete}
use ftd_metrics_exporter.Prelude.{
  ==_iff, ==_ne, ◌++◌, ℕ, zero, suc, ◌+◌, ◌≤◌, ◌<◌, ◌≡◌, refl, ◌⊎◌, inl, inr, List, [], ◌∷◌, true,
  false, Option, none, some, arith, Option-cases, Bool-cases,
}
use ftd_metrics_exporter.Http.Errors.{HttpError, Cause, is_retryable, classify_network_error}
use ftd_metrics_exporter.Http.Retry.{
  max_attempts, compute_backoff_ms, retries_exhausted_error, Attempt, responds, throws, Outcome,
  returned, thrown, Event, attempted, retrying, slept, fail_or_retry, response_delay, retry_loop,
  with_retry,
}

-- How many attempts a log holds.
abbrev pub attempts : List Event → ℕ
attempts [] = 0
attempts (attempted n ∷ es) = suc (attempts es)
attempts (_ ∷ es) = attempts es

-- How many retries a log announces, and how often it sleeps.
abbrev pub retries : List Event → ℕ
retries [] = 0
retries (retrying e n ms ∷ es) = suc (retries es)
retries (_ ∷ es) = retries es

abbrev pub sleeps : List Event → ℕ
sleeps [] = 0
sleeps (slept ms ∷ es) = suc (sleeps es)
sleeps (_ ∷ es) = sleeps es

pub Attempt-cases :
    {T : Type 0} (a : Attempt T) → ((t : T) × (a ≡ responds t)) ⊎ ((c : Cause) × (a ≡ throws c))
Attempt-cases (responds t) = inl (t, refl)
Attempt-cases (throws c) = inr (c, refl)

module _ {T : Type 0} (attempt : ℕ → Attempt T) (resolve_error : T → Option HttpError)
    (random : ℕ → ℕ) where
  abbrev pub failure_of : Attempt T → Option HttpError
  failure_of (throws cause) = some (classify_network_error cause)
  failure_of (responds response) = resolve_error response

  -- Attempt n failed in a way that is worth another attempt.
  abbrev pub IsTransient : ℕ → Type 0
  IsTransient n = (e : HttpError) × (failure_of (attempt n) ≡ some e) × (is_retryable e ≡ true)

  -- The outcome that attempt n settles.
  abbrev pub SettlesAt : ℕ → Outcome T → Type 0
  SettlesAt n o =
      ((t : T) × (attempt n ≡ responds t) × (resolve_error t ≡ none) × (o ≡ returned t))
      ⊎ ((e : HttpError) × (failure_of (attempt n) ≡ some e)
          × (is_retryable e ≡ false)
          × (o ≡ thrown e))
      ⊎ ((e : HttpError) × (failure_of (attempt n) ≡ some e)
          × (is_retryable e ≡ true)
          × (suc n ≡ max_attempts)
          × (o ≡ thrown (retries_exhausted_error e)))

  abbrev pub Settled : ℕ → Outcome T × List Event → Type 0
  Settled n (o, log) =
      (m : ℕ) × (n ≤ m)
      × (m < max_attempts)
      × ((k : ℕ) → n ≤ k → k < m → IsTransient k)
      × (attempts log + n ≡ suc m)
      × (retries log + n ≡ m)
      × (sleeps log + n ≡ m)
      × SettlesAt m o

  -- What one transient failure adds in front of what settles the rest.
  Settled-later :
      (n : ℕ) (rest : Outcome T × List Event) (es : List Event)
      → IsTransient n
      → Settled (n + 1) rest
      → (attempts (es ++ rest.1) ≡ suc (attempts rest.1))
      → (retries (es ++ rest.1) ≡ suc (retries rest.1))
      → (sleeps (es ++ rest.1) ≡ suc (sleeps rest.1))
      → Settled n (rest.0, es ++ rest.1)
  Settled-later n rest es here (m, le, lt, between, count, announced, slept_before, settled) more
        announces sleeps_too =
      (
        m,
        omega arith,
        lt,
        λ k p q. elim (ℕ_discrete n k) [
          | yes same ↦ subst IsTransient same here
          | no other ↦ between k (omega arith) q
        ],
        omega arith,
        omega arith,
        omega arith,
        settled,
      )

  fail_or_retry-Settled :
      (n delay : ℕ) (e : HttpError) (rest : Outcome T × List Event)
      → n < max_attempts
      → failure_of (attempt n) ≡ some e
      → (suc n < max_attempts → Settled (n + 1) rest)
      → Settled n (fail_or_retry attempt resolve_error random n e delay rest)
  unfolding fail_or_retry
  fail_or_retry-Settled n delay e rest h f later = elim (Bool-cases (is_retryable e)) [
    | inl t ↦ elim (ℕ_discrete n 2) [
      | yes last ↦
          rw (t, (==_iff n 2).1 last)
            (
              n,
              omega arith,
              h,
              (λ k p q. absurd (omega arith)),
              omega arith,
              omega arith,
              omega arith,
              inr (inr (e, f, t, omega arith, refl)),
            )
      | no early ↦
          rw (t, ==_ne n 2 early)
            (Settled-later n rest (attempted n ∷ retrying e (n + 1) delay ∷ slept delay ∷ [])
              (e, f, t) (later (omega arith)) refl refl refl)
    ]
    | inr t ↦ rw t (
      n,
      omega arith,
      h,
      (λ k p q. absurd (omega arith)),
      omega arith,
      omega arith,
      omega arith,
      inr (inl (e, f, t, refl)),
    )
  ]

  -- One round of the loop, given what the rounds behind it do.
  round-Settled :
      (rounds n : ℕ) (last : Option HttpError)
      → n < max_attempts
      → ((l : Option HttpError)
          → suc n < max_attempts
          → Settled (n + 1) (retry_loop attempt resolve_error random rounds (n + 1) l))
      → Settled n (retry_loop attempt resolve_error random (suc rounds) n last)
  unfolding retry_loop
  round-Settled rounds n last h next = elim (Attempt-cases (attempt n)) [
    | inl (t, e) ↦ elim (Option-cases (resolve_error t)) [
      | inl fine ↦
          rw (e, fine, retry_loop)
            (
              n,
              omega arith,
              h,
              (λ k p q. absurd (omega arith)),
              omega arith,
              omega arith,
              omega arith,
              inl (t, e, fine, refl),
            )
      | inr (err, bad) ↦
          rw (e, bad, retry_loop)
            (fail_or_retry-Settled n (response_delay attempt resolve_error random n err) err
              (retry_loop attempt resolve_error random rounds (n + 1) (some err)) h (rw e bad)
              (next (some err)))
    ]
    | inr (c, e) ↦
        rw (e, retry_loop)
          (fail_or_retry-Settled n (compute_backoff_ms (random n) n) (classify_network_error c)
            (retry_loop attempt resolve_error random rounds (n + 1)
              (some (classify_network_error c)))
            h (rw e refl) (next (some (classify_network_error c))))
  ]

  retry_loop-Settled :
      (rounds n : ℕ) (last : Option HttpError)
      → suc rounds + n ≡ max_attempts
      → Settled n (retry_loop attempt resolve_error random (suc rounds) n last)
  retry_loop-Settled zero n last h =
      round-Settled zero n last (omega arith) (λ l q. absurd (omega arith))
  retry_loop-Settled (suc r) n last h =
      round-Settled (suc r) n last (omega arith)
        (λ l q. retry_loop-Settled r (n + 1) l (omega arith))

  pub with_retry_settles : Settled 0 (with_retry attempt resolve_error random)
  unfolding with_retry
  with_retry_settles = retry_loop-Settled 2 0 none refl
