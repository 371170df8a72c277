-- ===== src/Http/Limiter.antt =====
-- src/http/limiter.ts: the concurrency limiter, a counting semaphore with a queue.
-- A call of `run` is named by a number. `running` is what the program knows and the limiter does
-- not: the calls that hold a slot. A call holds it from the moment its `acquire` resolves, and lets
-- it go when its task settles, whether by a value or by an error.
pub mod Laws
use ftd_metrics_exporter.Prelude.{
  ℕ, zero, suc, ◌+◌, ◌-◌, ◌++◌, Bool, true, false, List, [], ◌∷◌, Option, none, some, ltb, ◌==◌,
  if◌then◌else◌, ◌≡◌, ◌≢◌,
}

pub record ConcurrencyLimiter : Type 0 where
  pub max_concurrent : ℕ
  pub in_flight : ℕ
  pub queue : List ℕ

-- `none` is the `RangeError`.
unfoldable pub create_concurrency_limiter : ℕ → Option ConcurrencyLimiter
create_concurrency_limiter max_concurrent =
    if ltb max_concurrent 1
    then none
    else some (record { max_concurrent = max_concurrent; in_flight = 0; queue = [] })

-- What `acquire` gives: a slot, or a place in the queue, with `onDefer` fired.
pub data Acquired : Type 0 where
  resolved deferred : Acquired

unfoldable pub acquire : ConcurrencyLimiter → ℕ → ConcurrencyLimiter × Acquired
acquire l call =
    if ltb l.in_flight l.max_concurrent
    then (record l { in_flight = l.in_flight + 1 }, resolved)
    else (record l { queue = l.queue ++ call ∷ [] }, deferred)

-- `release`: the call at the front of the queue, if there is one, gets the slot.
unfoldable pub release : ConcurrencyLimiter → ConcurrencyLimiter × Option ℕ
release l = elim l.queue [
  | [] ↦ (record l { in_flight = l.in_flight - 1 }, none)
  | next ∷ rest ↦ (record l { in_flight = l.in_flight - 1 + 1; queue = rest }, some next)
]

unfoldable pub without : ℕ → List ℕ → List ℕ
without call [] = []
without call (c ∷ cs) = if c == call then cs else c ∷ without call cs

pub record System : Type 0 where
  pub limiter : ConcurrencyLimiter
  pub running : List ℕ

abbrev pub start : System → ℕ → ConcurrencyLimiter × Acquired → System
start s call (l, resolved) = record { limiter = l; running = call ∷ s.running }
start s call (l, deferred) = record { limiter = l; running = s.running }

abbrev pub granted : List ℕ → Option ℕ → List ℕ
granted running none = running
granted running (some next) = next ∷ running

abbrev pub finish : List ℕ → ConcurrencyLimiter × Option ℕ → System
finish running (l, next) = record { limiter = l; running = granted running next }

-- A caller enters `run`, or a call that holds a slot settles.
pub data Step : System → System → Type 0 where
  enters : {s : System} (call : ℕ) → Step s (start s call (acquire s.limiter call))
  settles :
      {s : System} (call : ℕ) (rest : List ℕ)
      → without call s.running ≡ rest
      → s.running ≢ rest
      → Step s (finish rest (release s.limiter))

pub data Reach (s : System) : System → Type 0 where
  here : Reach s s
  next : {t u : System} → Reach s t → Step t u → Reach s u
