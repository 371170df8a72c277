-- ===== src/Poller/Loop.antt =====
-- The poll loop over any number of cycles.
use ftd_metrics_exporter.Prelude.{
  ℕ, suc, ◌≤◌, ◌≡◌, ◌≢◌, ◌⊎◌, inl, refl, ap, if◌then◌else◌, Bool, true, false, List, [], ◌∷◌,
  Option, none, some, arith, length, All, if_both,
}
use ftd_metrics_exporter.Poller.{
  CacheEntry, Options, Poller, CycleInput, Fetched, resolves, rejects, SideEffect, Effect, Exit,
  next_delay_ms, record_all, settle, accept, succeed, fail, run_cycle, loop,
}
use ftd_metrics_exporter.Poller.Backoff.{next_delay_ms_bounds}

module _ {S : Type 0} where
  -- What `ftd_exporter_up` at 1 promises: the cache is filled, `devices` counts its snapshots, and no
  -- failure is being counted.
  abbrev pub Describes : Option (CacheEntry S) → ℕ → ℕ → Type 0
  Describes none devices failures = ⊥
  Describes (some e) devices failures = (devices ≡ length e.snapshots) × (failures ≡ 0)

  abbrev pub IsHonest : Poller S → Type 0
  IsHonest p = (p.metrics.up ≡ false) ⊎ Describes p.cache p.metrics.devices p.consecutive_failures

  -- A filled cache stays filled.
  abbrev pub StaysReady : Poller S → Poller S → Type 0
  StaysReady p q = (p.cache ≡ none) ⊎ (q.cache ≢ none)

  StaysReady-refl : (p : Poller S) → StaysReady p p
  StaysReady-refl p = ground arith

  StaysReady-trans : (p q r : Poller S) → StaysReady p q → StaysReady q r → StaysReady p r
  StaysReady-trans p q r h k = grind arith

  -- How many cycles run before the first that the signal overtakes.
  abbrev pub unaborted : List (CycleInput S) → ℕ
  unaborted [] = 0
  unaborted (i ∷ is) = if i.aborted then 0 else suc (unaborted is)

  accept-IsHonest : (p : Poller S) (ss : List S) (i : CycleInput S) → IsHonest (accept p ss i).0
  unfolding accept succeed fail
  accept-IsHonest p ss i = ground arith

  settle-IsHonest : (p : Poller S) (f : Fetched S) (i : CycleInput S) → IsHonest (settle p f i).0
  unfolding settle fail
  settle-IsHonest p (resolves ss) i = accept-IsHonest p ss i
  settle-IsHonest p (rejects c) i = inl refl

  record_all-IsHonest : (p : Poller S) (n : ℕ) → IsHonest p → IsHonest (record_all p n)
  unfolding record_all
  record_all-IsHonest p n h = ground (arith, h)

  module _ (o : Options) (throws : SideEffect → Bool) where
    run_cycle-IsHonest :
        (p : Poller S) (i : CycleInput S) → IsHonest p → IsHonest (run_cycle o throws p i).0
    unfolding run_cycle
    run_cycle-IsHonest p i h =
        if_both (λ (r : Poller S × List Effect × Exit). IsHonest r.0) i.aborted _ _
          (record_all-IsHonest p i.recorded h)
          (settle-IsHonest (record_all p i.recorded) i.fetched i)

    run_cycle-StaysReady :
        (p : Poller S) (i : CycleInput S) → StaysReady p (run_cycle o throws p i).0
    unfolding run_cycle settle accept succeed fail record_all
    run_cycle-StaysReady p i = ground arith

    pub loop-StaysReady :
        (p : Poller S) (is : List (CycleInput S)) → StaysReady p (loop o throws p is).0
    unfolding loop
    loop-StaysReady p [] = StaysReady-refl p
    loop-StaysReady p (i ∷ is) =
        let q : Poller S = (run_cycle o throws p i).0 in
        let ready = run_cycle-StaysReady p i in
        if_both (λ (r : Poller S × List ℕ). StaysReady p r.0) i.aborted _ _ ready
          (StaysReady-trans p q (loop o throws q is).0 ready (loop-StaysReady q is))

    -- Over any number of cycles, however each of them ends, and from a state in which the same
    -- holds: if `up` is 1 in the end, then the cache is filled, `devices` counts the snapshots that
    -- it serves, and no failure is being counted; and a cache that was filled before stays filled.
    pub loop-IsHonest :
        (p : Poller S) (is : List (CycleInput S))
        → IsHonest p
        → IsHonest (loop o throws p is).0 × StaysReady p (loop o throws p is).0
    unfolding loop
    loop-IsHonest p [] h = (h, StaysReady-refl p)
    loop-IsHonest p (i ∷ is) h =
        let q : Poller S = (run_cycle o throws p i).0 in
        let honest = run_cycle-IsHonest p i h in
        (
          if_both (λ (r : Poller S × List ℕ). IsHonest r.0) i.aborted _ _ honest
              (loop-IsHonest q is honest).0,
          loop-StaysReady p (i ∷ is),
        )

    -- With a poll interval up to the cap, every wait between two cycles lies between the interval and
    -- the cap, and there are as many waits as cycles before the first one that the signal overtakes.
    pub loop_delays :
        (p : Poller S) (is : List (CycleInput S))
        → o.interval_ms ≤ o.max_backoff_ms
        → All (λ d. (o.interval_ms ≤ d) × (d ≤ o.max_backoff_ms)) (loop o throws p is).1
          × (length (loop o throws p is).1 ≡ unaborted is)
    unfolding loop
    loop_delays p [] h = (tt, refl)
    loop_delays p (i ∷ is) h =
        let p' : Poller S = (run_cycle o throws p i).0 in
        let after : Poller S × List ℕ = (
          (loop o throws p' is).0,
          next_delay_ms o p'.consecutive_failures ∷ (loop o throws p' is).1,
        ) in
        let (bounds, count) = loop_delays (run_cycle o throws p i).0 is h in
        let (lo, hi, _, _) =
          next_delay_ms_bounds o (run_cycle o throws p i).0.consecutive_failures h in
        elim i.aborted
          as (λ b.
            All (λ d. (o.interval_ms ≤ d) × (d ≤ o.max_backoff_ms))
              (if b then (p', []) else after).1
            × (length (if b then (p', []) else after).1 ≡ (if b then 0 else suc (unaborted is)))) [
              | true ↦ (tt, refl)
              | false ↦ (((lo, hi), bounds), ap suc count)
            ]
