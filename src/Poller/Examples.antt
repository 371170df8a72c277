-- ===== src/Poller/Examples.antt =====
-- The theorems about the poller at concrete inputs; a snapshot is a number here.
use ftd_metrics_exporter.Prelude.{
  ℕ, ◌<◌, ◌≡◌, inl, refl, arith, Bool, true, false, List, [], ◌∷◌, none, some,
}
use ftd_metrics_exporter.Http.Errors.{PollErrorReason, error, classify_network_error}
use ftd_metrics_exporter.Poller.{
  Options, Poller, default_max_backoff_ms, next_delay_ms, resolves, rejects, CycleInput, SideEffect,
  run_cycle, loop, PollCycleResult,
}
use ftd_metrics_exporter.Poller.Backoff.{next_delay_ms_shortens}
use ftd_metrics_exporter.Poller.Cycle.{
  unbroken, due, Succeeded, Failed, run_cycle-Succeeded, run_cycle-Failed, run_cycle_stale,
}
use ftd_metrics_exporter.Poller.Loop.{IsHonest, StaysReady, loop-IsHonest}

-- A poll every five minutes, and one every half an hour.
abbrev every_5 : Options
every_5 = record { interval_ms = 300_000; max_backoff_ms = default_max_backoff_ms }

abbrev every_30 : Options
every_30 = record { interval_ms = 1_800_000; max_backoff_ms = default_max_backoff_ms }

next_delay_ms_shortens_example :
    (next_delay_ms every_30 1 ≡ every_30.max_backoff_ms)
    × (next_delay_ms every_30 1 < next_delay_ms every_30 0)
next_delay_ms_shortens_example = next_delay_ms_shortens every_30 0 (omega arith)

abbrev quiet : SideEffect → Bool
quiet _ = false

-- The logger is broken.
abbrev broken_log : SideEffect → Bool
broken_log SideEffect.log_cycle = true
broken_log SideEffect.log_error = true
broken_log _ = false

abbrev idle : Poller ℕ
idle = record {
  cache = none;
  metrics = record { up = false; last_successful_poll = 0; devices = 0; poll_errors = [] };
  consecutive_failures = 0;
  parse_errors = some 0;
}

abbrev good : CycleInput ℕ
good = record {
  fetched = resolves (11 ∷ 12 ∷ []);
  recorded = 1;
  aborted = false;
  started_at = 100;
  ended_at = 350;
  wall_ended_at = 9_000;
}

-- The fetch records a parse error and then times out.
abbrev timed_out : CycleInput ℕ
timed_out = record good { fetched = rejects (error "TimeoutError" "late") }

abbrev no_fleet : CycleInput ℕ
no_fleet = record good { fetched = resolves []; recorded = 0 }

abbrev stopped : CycleInput ℕ
stopped = record good { aborted = true }

run_cycle-Succeeded_example :
    Succeeded idle (11 ∷ 12 ∷ []) good (run_cycle every_5 quiet idle good).0
run_cycle-Succeeded_example =
    run_cycle-Succeeded every_5 quiet idle good (11 ∷ 12 ∷ []) refl refl (inl (ground arith))

run_cycle-Failed_example :
    Failed idle
      (classify_network_error (error "TimeoutError" "late")).reason
      (run_cycle every_5 quiet idle timed_out).0
run_cycle-Failed_example =
    run_cycle-Failed every_5 quiet idle timed_out
      (classify_network_error (error "TimeoutError" "late")).reason refl
      (inl (error "TimeoutError" "late", refl, refl))

-- With a broken logger the counter, the duration and the callback are performed.
broken_log-due :
    (r : PollCycleResult)
    → unbroken broken_log (due every_5 broken_log idle good) r
      ≡ (SideEffect.poll_total, r)
        ∷ (SideEffect.poll_duration, r)
        ∷ (SideEffect.on_cycle_complete, r)
        ∷ []
unfolding unbroken
broken_log-due r = refl

run_cycle_stale_example :
    Failed
      (run_cycle every_5 quiet idle timed_out).0
      PollErrorReason.parse
      (run_cycle every_5 quiet (run_cycle every_5 quiet idle timed_out).0 no_fleet).0
run_cycle_stale_example =
    run_cycle_stale every_5 quiet idle timed_out no_fleet (error "TimeoutError" "late") 0 refl
      (omega arith) refl refl refl refl refl

abbrev cycles : List (CycleInput ℕ)
cycles = good ∷ timed_out ∷ no_fleet ∷ stopped ∷ []

loop-IsHonest_example :
    IsHonest (loop every_5 quiet idle cycles).0 × StaysReady idle (loop every_5 quiet idle cycles).0
loop-IsHonest_example = loop-IsHonest every_5 quiet idle cycles (inl refl)
