-- ===== src/Backends/RefreshCache.antt =====
-- src/backends/shared/refresh-cache.ts: the cache that is refreshed from the poll path.
-- `in_flight` says that a refresh runs. When the fetch settles the refresh is over: the microtask
-- between the two is not told apart. `onFailure` is taken to return.
pub mod Laws
use ftd_metrics_exporter.Prelude.{
  ℕ, suc, ◌+◌, Bool, true, false, Option, none, some, leb, if◌then◌else◌, ◌≡◌,
}

pub record RefreshCache (T : Type 0) : Type 0 where
  pub interval_ms : ℕ
  pub cached : T
  pub last_success_at : Option ℕ
  pub in_flight : Bool

unfoldable pub create_refresh_cache : {T : Type 0} → ℕ → T → RefreshCache T
create_refresh_cache interval_ms initial_value = record {
  interval_ms = interval_ms;
  cached = initial_value;
  last_success_at = none;
  in_flight = false;
}

-- What a call of `refreshIfDue` does: it joins the refresh that runs, finds nothing due, or starts a
-- fetch.
pub data Called : Type 0 where
  joined not_due started : Called

-- `now - lastSuccessAt >= intervalMs`, with the subtraction moved over.
unfoldable pub is_due : Option ℕ → (interval_ms now : ℕ) → Bool
is_due none interval_ms now = true
is_due (some at) interval_ms now = leb (at + interval_ms) now

module _ {T : Type 0} where
  unfoldable pub refresh_if_due : RefreshCache T → ℕ → RefreshCache T × Called
  refresh_if_due c now =
      if c.in_flight
      then (c, joined)
      else if is_due c.last_success_at c.interval_ms now
      then (record c { in_flight = true }, started)
      else (c, not_due)

  -- The end of `runRefresh`: with a value, at the clock's time, or by the failure of the fetch.
  unfoldable pub fetched : RefreshCache T → T → ℕ → RefreshCache T
  fetched c value now = record c { cached = value; last_success_at = some now; in_flight = false }

  unfoldable pub failed : RefreshCache T → RefreshCache T
  failed c = record c { in_flight = false }

  unfoldable pub get_cached : RefreshCache T → T
  get_cached c = c.cached

-- The cache, and what an observer of the fetches knows: how many have started and settled, and
-- the latest value that one of them gave.
pub record System (T : Type 0) : Type 0 where
  pub cache : RefreshCache T
  pub starts : ℕ
  pub settled : ℕ
  pub latest : T

abbrev pub count : Called → ℕ → ℕ
count started n = suc n
count _ n = n

abbrev pub call : {T : Type 0} → System T → ℕ → System T
call s now =
    let (c, called) = refresh_if_due s.cache now in
    record s { cache = c; starts = count called s.starts }

-- A caller calls, or the fetch of the refresh that runs settles.
pub data Step {T : Type 0} : System T → System T → Type 0 where
  calls : {s : System T} (now : ℕ) → Step s (call s now)
  succeeds :
      {s : System T} (value : T) (now : ℕ)
      → s.cache.in_flight ≡ true
      → Step s (record {
        cache = fetched s.cache value now;
        starts = s.starts;
        settled = suc s.settled;
        latest = value;
      })
  fails :
      {s : System T}
      → s.cache.in_flight ≡ true
      → Step s (record s { cache = failed s.cache; settled = suc s.settled })

pub data Reach {T : Type 0} (s : System T) : System T → Type 0 where
  here : Reach s s
  next : {t u : System T} → Reach s t → Step t u → Reach s u
