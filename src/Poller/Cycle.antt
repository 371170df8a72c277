-- ===== src/Poller/Cycle.antt =====
-- One poll cycle, on every branch.
use ftd_metrics_exporter.Prelude.{
  ℕ, suc, ◌+◌, ◌-◌, ◌<◌, ltb, if◌then◌else◌, ◌≡◌, ◌≢◌, refl, ◌⊎◌, inl, inr, Bool, true, false, List,
  [], ◌∷◌, none, some, arith, length,
}
use ftd_metrics_exporter.Http.Errors.{PollErrorReason, Cause, classify_network_error}
use ftd_metrics_exporter.Poller.{
  Options, Poller, bounded_reason, resolves, rejects, CycleInput, SideEffect, Effect, performed,
  PollCycleResult, record_all, consume_since_last_cycle, succeed, fail, accept, settle, run_cycle,
  reported,
}

bounded_reason_lem : (r : PollErrorReason) → bounded_reason r ≡ r
unfolding bounded_reason
bounded_reason_lem PollErrorReason.auth = refl
bounded_reason_lem PollErrorReason.rate_limited = refl
bounded_reason_lem PollErrorReason.timeout = refl
bounded_reason_lem PollErrorReason.network = refl
bounded_reason_lem PollErrorReason.http_5xx = refl
bounded_reason_lem PollErrorReason.parse = refl
bounded_reason_lem PollErrorReason.unknown = refl

-- The side effects that a log shows as performed, each with the result that it was given.
abbrev pub performances : List Effect → List (SideEffect × PollCycleResult)
performances [] = []
performances (performed e r ∷ es) = (e, r) ∷ performances es
performances (reported e ∷ es) = performances es

-- Those of a list that do not throw, with a result.
unfoldable pub unbroken :
    (SideEffect → Bool) → List SideEffect → PollCycleResult → List (SideEffect × PollCycleResult)
unbroken throws [] r = []
unbroken throws (e ∷ es) r =
    let rest = unbroken throws es r in if throws e then rest else (e, r) ∷ rest

module _ {S : Type 0} where
  -- The parse errors that a cycle sees: those since the last cycle that looked.
  abbrev pub seen : Poller S → CycleInput S → ℕ
  seen p i = elim p.parse_errors [ none ↦ 0 | some count ↦ count + i.recorded ]

  -- What a cycle that counts as a success has done.
  abbrev pub Succeeded : Poller S → List S → CycleInput S → Poller S → Type 0
  Succeeded p snapshots i q =
      (q.cache ≡ some (record { snapshots = snapshots; fetched_at = i.ended_at }))
      × (q.metrics.up ≡ true)
      × (q.metrics.devices ≡ length snapshots)
      × (q.metrics.last_successful_poll ≡ i.wall_ended_at)
      × (q.metrics.poll_errors ≡ p.metrics.poll_errors)
      × (q.consecutive_failures ≡ 0)

  -- What a cycle that counts as a failure has done: the cache still serves what it did.
  abbrev pub Failed : Poller S → PollErrorReason → Poller S → Type 0
  Failed p reason q =
      (q.cache ≡ p.cache)
      × (q.metrics.up ≡ false)
      × (q.metrics.devices ≡ p.metrics.devices)
      × (q.metrics.last_successful_poll ≡ p.metrics.last_successful_poll)
      × (q.metrics.poll_errors ≡ reason ∷ p.metrics.poll_errors)
      × (q.consecutive_failures ≡ suc p.consecutive_failures)

  tracker_of_rejected :
      (o : Options) (throws : SideEffect → Bool) (p : Poller S) (i : CycleInput S) (c : Cause)
      (k : ℕ)
      → p.parse_errors ≡ some k
      → i.aborted ≡ false
      → i.fetched ≡ rejects c
      → (run_cycle o throws p i).0.parse_errors ≡ some (k + i.recorded)
  unfolding run_cycle settle fail record_all
  tracker_of_rejected o throws p i c k t a f = ground arith

  module _ (o : Options) (throws : SideEffect → Bool) (p : Poller S) (i : CycleInput S) where
    -- A cycle that the signal does not overtake is a success if its fetch resolves to at least one
    -- device, or to none with no parse error seen: the cache holds its snapshots, `up` is 1,
    -- `devices` is their number, and no failure is counted any more.
    pub run_cycle-Succeeded :
        (snapshots : List S)
        → i.aborted ≡ false
        → i.fetched ≡ resolves snapshots
        → (snapshots ≢ []) ⊎ (seen p i ≡ 0)
        → Succeeded p snapshots i (run_cycle o throws p i).0
    unfolding run_cycle settle accept succeed record_all consume_since_last_cycle
    run_cycle-Succeeded snapshots a f h = ground arith

    -- A cycle that the signal does not overtake is a failure if its fetch rejects, with the reason
    -- of the rejection, or if it resolves to no device after a parse error was seen, with the
    -- reason `parse`: the cache and the count of devices stay, `up` is 0, the reason is counted and
    -- so is the failure.
    pub run_cycle-Failed :
        (reason : PollErrorReason)
        → i.aborted ≡ false
        → ((c : Cause) × (i.fetched ≡ rejects c) × (reason ≡ (classify_network_error c).reason))
          ⊎ ((i.fetched ≡ resolves []) × (0 < seen p i) × (reason ≡ PollErrorReason.parse))
        → Failed p reason (run_cycle o throws p i).0
    unfolding run_cycle settle accept fail record_all consume_since_last_cycle
        classify_network_error
    run_cycle-Failed reason a (inl (c, f, r)) =
        ground (arith, bounded_reason_lem (classify_network_error c).reason)
    run_cycle-Failed reason a (inr (f, k, r)) =
        ground (arith, bounded_reason_lem PollErrorReason.parse)

    -- A cycle that the signal overtakes changes neither the cache nor a metric nor the count of
    -- failures, and has no side effect.
    pub run_cycle_aborted :
        i.aborted ≡ true
        → ((run_cycle o throws p i).0.cache ≡ p.cache)
          × ((run_cycle o throws p i).0.metrics ≡ p.metrics)
          × ((run_cycle o throws p i).0.consecutive_failures ≡ p.consecutive_failures)
          × ((run_cycle o throws p i).1 ≡ [])
    unfolding run_cycle record_all
    run_cycle_aborted a = ground arith

    -- A result describes a cycle and the state behind it.
    abbrev pub Describes : PollCycleResult → Type 0
    Describes r =
        (r.duration_ms ≡ i.ended_at - i.started_at)
        × (((r.success ≡ true)
              × (r.device_count ≡ (run_cycle o throws p i).0.metrics.devices)
              × ((run_cycle o throws p i).0.metrics.up ≡ true))
            ⊎ ((r.success ≡ false)
                × (r.device_count ≡ 0)
                × ((run_cycle o throws p i).0.metrics.up ≡ false)))

    -- The side effects that are due after a cycle.
    abbrev pub due : List SideEffect
    due =
        SideEffect.poll_total
        ∷ SideEffect.poll_duration
        ∷ SideEffect.log_cycle
        ∷ (if ltb o.interval_ms (i.ended_at - i.started_at)
            then SideEffect.log_slow ∷ SideEffect.on_cycle_complete ∷ []
            else SideEffect.on_cycle_complete ∷ [])

  -- A cycle that rejects after it has recorded parse errors leaves them in the tracker, where one
  -- is wired, and the next cycle is charged with them: if it resolves to an empty fleet and records
  -- none, it still is a failure with the reason `parse`, where the signal overtakes neither.
  pub run_cycle_stale :
      (o : Options) (throws : SideEffect → Bool) (p : Poller S) (i j : CycleInput S) (c : Cause)
      (k : ℕ)
      → p.parse_errors ≡ some k
      → 0 < i.recorded
      → i.aborted ≡ false
      → i.fetched ≡ rejects c
      → j.aborted ≡ false
      → j.fetched ≡ resolves []
      → j.recorded ≡ 0
      → Failed
          (run_cycle o throws p i).0
          PollErrorReason.parse
          (run_cycle o throws (run_cycle o throws p i).0 j).0
  run_cycle_stale o throws p i j c k t r a f b g z =
      run_cycle-Failed o throws (run_cycle o throws p i).0 j PollErrorReason.parse b
        (inr (g, left, refl))
    where
      left : 0 < seen (run_cycle o throws p i).0 j
      left = rw (tracker_of_rejected o throws p i c k t a f, seen) (omega arith)
