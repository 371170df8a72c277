-- ===== src/Backends/RefreshCache/Laws.antt =====
-- What the poll path and the render path can rely on.
use ftd_metrics_exporter.Prelude.{ℕ, suc, ◌+◌, ◌≤◌, ◌<◌, ◌≡◌, ◌≢◌, ◌⊎◌, refl, arith, if◌then◌else◌}
use ftd_metrics_exporter.Backends.RefreshCache.{
  RefreshCache, create_refresh_cache, not_due, started, is_due, refresh_if_due, fetched, failed,
  get_cached, System, Step, calls, succeeds, fails, Reach, here, next,
}

module _ {T : Type 0} where
  pub record IsSound (s : System T) : Type 0 where
    pub single : s.starts ≡ s.settled + (if s.cache.in_flight then 1 else 0)
    pub current : s.cache.cached ≡ s.latest

  Step-IsSound : {s t : System T} → Step s t → IsSound s → IsSound t
  unfolding refresh_if_due fetched failed
  Step-IsSound (calls now) v = ground arith
  Step-IsSound (succeeds value now h) v = ground arith
  Step-IsSound (fails h) v = ground arith

  Reach-IsSound : {s t : System T} → IsSound s → Reach s t → IsSound t
  Reach-IsSound v here = v
  Reach-IsSound v (next r st) = Step-IsSound st (Reach-IsSound v r)

  abbrev pub initial : ℕ → T → System T
  initial interval_ms value = record {
    cache = create_refresh_cache interval_ms value;
    starts = 0;
    settled = 0;
    latest = value;
  }

  -- However calls and the ends of fetches follow one another, at most one fetch is under way, and the
  -- cache serves the value of the latest fetch that succeeded, or the initial value if none has:
  -- a failure never takes a value away.
  pub Reach-one_fetch :
      (interval_ms : ℕ) (value : T) (t : System T)
      → Reach (initial interval_ms value) t
      → (t.starts ≤ suc t.settled) × (t.settled ≤ t.starts) × (get_cached t.cache ≡ t.latest)
  unfolding get_cached create_refresh_cache
  Reach-one_fetch interval_ms value t r =
      let v = Reach-IsSound (record { single = refl; current = refl }) r in
      ground (arith, v.single, v.current)

  -- After a success, the next call starts no fetch before the interval has passed, and starts one from
  -- then on; if a call would start a fetch, then it would also start one after a failure: a failure
  -- delays no attempt.
  pub refresh_if_due_cadence :
      (c : RefreshCache T) (value : T) (at now : ℕ)
      → (((now < at + c.interval_ms) × ((refresh_if_due (fetched c value at) now).1 ≡ not_due))
          ⊎ ((at + c.interval_ms ≤ now) × ((refresh_if_due (fetched c value at) now).1 ≡ started)))
        × (((refresh_if_due c now).1 ≢ started) ⊎ ((refresh_if_due (failed c) now).1 ≡ started))
  unfolding refresh_if_due fetched failed is_due
  refresh_if_due_cadence c value at now = ground arith
