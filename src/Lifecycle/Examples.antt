-- ===== src/Lifecycle/Examples.antt =====
-- The theorems about the shutdown at concrete inputs.
use ftd_metrics_exporter.Prelude.{◌≤◌, ◌≡◌, ◌⊎◌, refl, true, false, none, some, length}
use ftd_metrics_exporter.Lifecycle.{
  stopping_server, Sequence, Lifecycle, create_lifecycle, shutdown, hard_exit, Reach, here, next,
  calls, fires,
}
use ftd_metrics_exporter.Lifecycle.Laws.{IsSound, Reach-IsSound, Reach-exits, step_ends}

abbrev begun : Sequence
begun = record { exit_code = 0; stage = stopping_server; hard_exit_fired = false; timer_set = true }

-- A signal came, and the server hangs.
abbrev hung : Lifecycle
hung = hard_exit (shutdown create_lifecycle 0) begun

hung-Reach : Reach create_lifecycle hung
unfolding shutdown
hung-Reach = next (next here (calls 0)) (fires begun refl refl)

Reach-IsSound_example : IsSound hung
Reach-IsSound_example = Reach-IsSound hung hung-Reach

Reach-exits_example :
    (length hung.exits ≤ 1)
    × ((hung.shutdown_promise ≡ none)
        ⊎ (length hung.exits ≡ 1)
        ⊎ ((q : Sequence) × (hung.shutdown_promise ≡ some q) × (q.timer_set ≡ true)))
Reach-exits_example = Reach-exits hung hung-Reach

abbrev stopping : Lifecycle
stopping = shutdown create_lifecycle 0

abbrev closed : Lifecycle
closed =
    step_ends (step_ends (step_ends (shutdown (shutdown create_lifecycle 0) 1) true) false) true
