-- ===== src/Server/Routes/Laws.antt =====
-- What a client of the endpoint meets.
use ftd_metrics_exporter.Prelude.{
  ℕ, ◌≡◌, ◌≢◌, refl, ◌⊎◌, ◌↔◌, String, Bool, true, false, List, Option, none, some, includes, arith,
}
use ftd_metrics_exporter.Server.Routes.{
  returns, RouteDeps, probe, handle_healthz, handle_readyz, known_paths, not_found,
  method_not_allowed, or_default, before_query, is_get_or_head, responds, handle_path,
  handle_request,
}
use ftd_metrics_exporter.Poller.{Options, Poller, CycleInput, SideEffect, loop}
use ftd_metrics_exporter.Poller.Loop.{loop-StaysReady}

abbrev path_of : Option String → String
path_of url = before_query (or_default "/" url)

-- A request is answered by 404 exactly if its path is none of the four, and by 405, with the methods
-- that are allowed, exactly if its path is one of the four and its method is neither GET nor HEAD.
pub handle_request_refuses :
    (deps : RouteDeps) (url method : Option String)
    → ((handle_request deps url method ≡ responds not_found)
        ↔ (includes known_paths (path_of url) ≡ false))
      × ((handle_request deps url method ≡ responds method_not_allowed) ↔ (
          (includes known_paths (path_of url) ≡ true)
          × (is_get_or_head (or_default "" method) ≡ false)))
unfolding handle_request handle_path handle_healthz handle_readyz probe
handle_request_refuses deps url method = ground arith

-- The callbacks of src/index.ts: `isAlive` is `() => true`, and `isReady` is whether the cache has an entry.
abbrev pub is_filled : {A : Type 0} → Option A → Bool
is_filled none = false
is_filled (some _) = true

abbrev pub wired : {S : Type 0} → Poller S → RouteDeps
wired p = record { is_alive = returns true; is_ready = returns (is_filled p.cache) }

abbrev readyz_of : {A : Type 0} → Option A → ℕ
readyz_of c =
    (handle_readyz
      (record { is_alive = returns true; is_ready = returns (is_filled c) })).status_code

still :
    {A : Type 0} (c d : Option A)
    → (c ≡ none) ⊎ (d ≢ none)
    → (readyz_of c ≡ 503) ⊎ (readyz_of d ≡ 200)
unfolding handle_readyz probe
still c d h = ground arith

shown : {A : Type 0} (c : Option A) → (readyz_of c ≡ 503) ⊎ (c ≢ none)
unfolding handle_readyz probe
shown c = ground arith

-- With the callbacks that the exporter wires, and after any cycles from any state, whether they fail or
-- not: `/healthz` is answered by 200, also while no poll has succeeded yet; `/readyz` is answered by
-- 200 if it was before them, where it was 503 otherwise; and it is answered by 503 unless the cache
-- has an entry.
pub handle_readyz-loop :
    {S : Type 0} (o : Options) (fails : SideEffect → Bool) (p : Poller S) (is : List (CycleInput S))
    → ((handle_healthz (wired (loop o fails p is).0)).status_code ≡ 200)
      × (((handle_readyz (wired p)).status_code ≡ 503)
          ⊎ ((handle_readyz (wired (loop o fails p is).0)).status_code ≡ 200))
      × (((handle_readyz (wired (loop o fails p is).0)).status_code ≡ 503)
          ⊎ ((loop o fails p is).0.cache ≢ none))
unfolding handle_healthz handle_readyz probe
handle_readyz-loop o fails p is = (
  refl,
  still p.cache (loop o fails p is).0.cache (loop-StaysReady o fails p is),
  shown (loop o fails p is).0.cache,
)
