-- ===== src/Lifecycle/Laws.antt =====
-- What holds of every shutdown.
use ftd_metrics_exporter.Prelude.{
  ℕ, ◌≤◌, ◌≡◌, refl, ◌⊎◌, inl, inr, Bool, true, false, List, [], ◌∷◌, Option, none, some, arith,
  length,
}
use ftd_metrics_exporter.Lifecycle.{
  Stage, stopping_server, stopping_poller, closing_backend, finished, Action, server_stop,
  poller_stop, backend_close, log_failed, log_forced_exit, Sequence, Lifecycle, create_lifecycle,
  install, shutdown, advance, hard_exit, Step, installs, calls, ends, fires, Reach, here, next,
}

-- The calls into the three targets, without the log.
abbrev pub calls_of : List Action → List Action
calls_of [] = []
calls_of (log_failed s ∷ rest) = calls_of rest
calls_of (log_forced_exit ∷ rest) = calls_of rest
calls_of (a ∷ rest) = a ∷ calls_of rest

-- The calls that a stage has behind it, the latest first.
abbrev pub made : Stage → List Action
made stopping_server = server_stop ∷ []
made stopping_poller = poller_stop ∷ server_stop ∷ []
made closing_backend = backend_close ∷ poller_stop ∷ server_stop ∷ []
made finished = backend_close ∷ poller_stop ∷ server_stop ∷ []

abbrev pub is_finished : Stage → Bool
is_finished finished = true
is_finished _ = false

-- The exits of a sequence: 1 if the timer fired, its own code if it finished before, none otherwise.
abbrev pub exits_of : Sequence → List ℕ
exits_of q = elim q.hard_exit_fired [
  | true ↦ 1 ∷ []
  | false ↦ elim (is_finished q.stage) [ true ↦ q.exit_code ∷ [] | false ↦ [] ]
]

-- The timer is pending exactly while neither it nor the sequence has come to its end.
abbrev pub pending_of : Sequence → Bool
pending_of q = elim q.hard_exit_fired [
  | true ↦ false
  | false ↦ elim (is_finished q.stage) [ true ↦ false | false ↦ true ]
]

abbrev pub IsOrderly : Option Sequence → List Action → List ℕ → Type 0
IsOrderly none actions exits = (actions ≡ []) × (exits ≡ [])
IsOrderly (some q) actions exits =
    (calls_of actions ≡ made q.stage) × (exits ≡ exits_of q) × (q.timer_set ≡ pending_of q)

abbrev pub IsSound : Lifecycle → Type 0
IsSound l = IsOrderly l.shutdown_promise l.actions l.exits

install-IsSound : (l : Lifecycle) → IsSound l → IsSound (install l).0
unfolding install
install-IsSound l v = ground arith

shutdown-IsSound : (l : Lifecycle) (code : ℕ) → IsSound l → IsSound (shutdown l code)
unfolding shutdown
shutdown-IsSound l code v = ground arith

advance-IsSound :
    (l : Lifecycle) (q : Sequence) (ok : Bool)
    → l.shutdown_promise ≡ some q
    → IsSound l
    → IsSound (advance l q ok)
unfolding advance
advance-IsSound l q ok e v = ground arith

hard_exit-IsSound :
    (l : Lifecycle) (q : Sequence)
    → l.shutdown_promise ≡ some q
    → q.timer_set ≡ true
    → IsSound l
    → IsSound (hard_exit l q)
unfolding hard_exit
hard_exit-IsSound l q e t v = ground arith

Step-IsSound : {l m : Lifecycle} → Step l m → IsSound l → IsSound m
Step-IsSound (installs {l}) v = install-IsSound l v
Step-IsSound (calls {l} code) v = shutdown-IsSound l code v
Step-IsSound (ends {l} q ok e) v = advance-IsSound l q ok e v
Step-IsSound (fires {l} q e t) v = hard_exit-IsSound l q e t v

-- However calls of `shutdown`, the ends of its steps and the timer follow one another, and whether
-- the steps succeed or fail: nothing happens before the first call; after it the targets are called
-- once each in the order server, poller, backend, as far as the sequence is; and `exit` is called
-- with 1 once the timer has fired, with the code of the sequence once that has finished before, and
-- not before either.
pub Reach-IsSound : (l : Lifecycle) → Reach create_lifecycle l → IsSound l
Reach-IsSound l here = (refl, refl)
Reach-IsSound l (next {k} r s) = Step-IsSound s (Reach-IsSound k r)

running-exits :
    (q : Sequence) (exits : List ℕ)
    → exits ≡ exits_of q
    → q.timer_set ≡ pending_of q
    → (length exits ≤ 1) × ((length exits ≡ 1) ⊎ (q.timer_set ≡ true))
running-exits q exits e p = ground arith

orderly-exits :
    (o : Option Sequence) (actions : List Action) (exits : List ℕ)
    → IsOrderly o actions exits
    → (length exits ≤ 1)
      × ((o ≡ none) ⊎ (length exits ≡ 1) ⊎ ((q : Sequence) × (o ≡ some q) × (q.timer_set ≡ true)))
orderly-exits none actions exits v = (rw v.1 (omega arith), inl refl)
orderly-exits (some q) actions exits (_, e, p) =
    let (few, done) = running-exits q exits e p in
    (few, elim done [ inl d ↦ inr (inl d) | inr t ↦ inr (inr (q, refl, t)) ])

-- `exit` is never called twice, and as long as it was not called although `shutdown` was, the
-- hard-exit timer is pending, also while a step hangs.
pub Reach-exits :
    (l : Lifecycle)
    → Reach create_lifecycle l
    → (length l.exits ≤ 1)
      × ((l.shutdown_promise ≡ none)
          ⊎ (length l.exits ≡ 1)
          ⊎ ((q : Sequence) × (l.shutdown_promise ≡ some q) × (q.timer_set ≡ true)))
Reach-exits l r = orderly-exits l.shutdown_promise l.actions l.exits (Reach-IsSound l r)

-- A failed step of the shutdown changes nothing but the log: the sequence goes on as if it had
-- succeeded.
pub advance_failed :
    (l : Lifecycle) (q : Sequence)
    → ((advance l q false).shutdown_promise ≡ (advance l q true).shutdown_promise)
      × ((advance l q false).exits ≡ (advance l q true).exits)
      × (calls_of (advance l q false).actions ≡ calls_of (advance l q true).actions)
unfolding advance
advance_failed l q = ground arith

-- The awaited step ends, if a sequence runs.
unfoldable pub step_ends : Lifecycle → (ok : Bool) → Lifecycle
step_ends l ok = elim l.shutdown_promise [ none ↦ l | some q ↦ advance l q ok ]

-- A first shutdown whose three steps end before the timer fires calls the targets in their order
-- and then `exit` with the code of the first call, whether its steps succeed or fail and whatever a
-- second call of `shutdown` asks for.
pub shutdown_runs :
    (l : Lifecycle) (code other : ℕ) (a b c : Bool)
    → l.shutdown_promise ≡ none
    → l.actions ≡ []
    → let done = step_ends (step_ends (step_ends (shutdown (shutdown l code) other) a) b) c in
      (done.exits ≡ code ∷ l.exits)
      × (calls_of done.actions ≡ backend_close ∷ poller_stop ∷ server_stop ∷ [])
unfolding shutdown advance step_ends
shutdown_runs l code other a b c n e = ground arith
