-- ===== src/Lifecycle.antt =====
-- src/lifecycle.ts: the shutdown sequence.
-- The state says how far the sequence is. What can happen to it is a step: a call of `shutdown`, from
-- a signal, an exception or a caller; the end of the step of the sequence that is awaited, by success
-- or by an error; and the hard-exit timer. A step that hangs is one that never ends. `exits` holds the
-- codes of the calls of `exit`, the latest first; with `process.exit` nothing follows the first.
pub mod Laws
mod Examples
use ftd_metrics_exporter.Prelude.{
  ℕ, Bool, true, false, List, [], ◌∷◌, ◌++◌, Option, none, some, if◌then◌else◌, ◌≡◌,
}

-- The steps of `runShutdownSequence`, in their order.
pub data Stage : Type 0 where
  stopping_server stopping_poller closing_backend finished : Stage

-- What `runShutdownSequence` does to its targets and to the log.
pub data Action : Type 0 where
  server_stop poller_stop backend_close : Action
  log_failed : Stage → Action
  log_forced_exit : Action

-- A sequence that runs: its exit code and `hardExitFired`; `timer_set` says that the timer is pending.
pub record Sequence : Type 0 where
  pub exit_code : ℕ
  pub stage : Stage
  pub hard_exit_fired : Bool
  pub timer_set : Bool

-- `shutdown_promise` is there from the first call of `shutdown` on.
pub record Lifecycle : Type 0 where
  pub installed : Bool
  pub shutdown_promise : Option Sequence
  pub actions : List Action
  pub exits : List ℕ

abbrev pub create_lifecycle : Lifecycle
create_lifecycle = record { installed = false; shutdown_promise = none; actions = []; exits = [] }

-- `install`: the handlers call `shutdown`, with 0 for a signal and with 1 for an exception or a
-- rejection. The result says whether handlers were registered.
unfoldable pub install : Lifecycle → Lifecycle × Bool
install l = if l.installed then (l, false) else (record l { installed = true }, true)

unfoldable pub shutdown : Lifecycle → ℕ → Lifecycle
shutdown l exit_code = elim l.shutdown_promise [
  | some _ ↦ l
  | none ↦ record l {
    shutdown_promise = some (record {
      exit_code = exit_code;
      stage = stopping_server;
      hard_exit_fired = false;
      timer_set = true;
    });
    actions = server_stop ∷ l.actions;
  }
]

-- The end of `guardedStep`: a failure is logged, and the sequence goes on.
abbrev pub logged : Stage → (ok : Bool) → List Action → List Action
logged stage ok actions = if ok then actions else log_failed stage ∷ actions

-- The awaited step of the sequence ends, by success or by an error.
unfoldable pub advance : Lifecycle → Sequence → (ok : Bool) → Lifecycle
advance l q ok = elim q.stage [
  | stopping_server ↦ record l {
    shutdown_promise = some (record q { stage = stopping_poller });
    actions = poller_stop ∷ logged stopping_server ok l.actions;
  }
  | stopping_poller ↦ record l {
    shutdown_promise = some (record q { stage = closing_backend });
    actions = backend_close ∷ logged stopping_poller ok l.actions;
  }
  | closing_backend ↦ record l {
    shutdown_promise = some (record q { stage = finished; timer_set = false });
    actions = logged closing_backend ok l.actions;
    exits = if q.hard_exit_fired then l.exits else q.exit_code ∷ l.exits;
  }
  | finished ↦ l
]

-- The hard-exit timer fires.
unfoldable pub hard_exit : Lifecycle → Sequence → Lifecycle
hard_exit l q = record l {
  shutdown_promise = some (record q { hard_exit_fired = true; timer_set = false });
  actions = log_forced_exit ∷ l.actions;
  exits = 1 ∷ l.exits;
}

pub data Step : Lifecycle → Lifecycle → Type 0 where
  installs : {l : Lifecycle} → Step l (install l).0
  calls : {l : Lifecycle} (exit_code : ℕ) → Step l (shutdown l exit_code)
  ends :
      {l : Lifecycle} (q : Sequence) (ok : Bool)
      → l.shutdown_promise ≡ some q
      → Step l (advance l q ok)
  fires :
      {l : Lifecycle} (q : Sequence)
      → l.shutdown_promise ≡ some q
      → q.timer_set ≡ true
      → Step l (hard_exit l q)

pub data Reach (l : Lifecycle) : Lifecycle → Type 0 where
  here : Reach l l
  next : {k m : Lifecycle} → Reach l k → Step k m → Reach l m
