-- ===== src/Server/Routes/Renderer.antt =====
-- src/server/routes.ts, `createMetricsRenderer`: one render for overlapping scrapes.
-- `renderMetrics` runs inside the call, before the promise is stored in `inFlight`; the registry's text
-- comes later. So a throw of `renderMetrics` clears `inFlight` first, and then the promise that it has
-- rejected is stored.
use ftd_metrics_exporter.Prelude.{
  ◌≡◌, refl, String, Bool, true, false, List, [], ◌∷◌, Option, none, some,
}
use ftd_metrics_exporter.Prelude.Text.{concat}
use ftd_metrics_exporter.Server.Routes.{Response, plain}

-- How a render settles.
pub data Rendered : Type 0 where
  rendered : (content_type body : String) → Rendered
  failed : (message : String) → Rendered

-- The promise in `inFlight`: it waits for the registry, or is rejected already.
pub data InFlight : Type 0 where
  pending : InFlight
  rejected : (message : String) → InFlight

-- A call of `renderMetrics`.
pub data Render : Type 0 where
  returns : Render
  throws : (message : String) → Render

-- The answer that a request gets: with the render that is under way, or a failure at once.
pub data Answer : Type 0 where
  waits : Answer
  answers : Response → Answer

unfoldable pub answer : Rendered → Response
answer (rendered content_type body) = record {
  status_code = 200;
  content_type = content_type;
  body = body;
  allow = none;
}
answer (failed message) = plain 500 (concat ("error rendering metrics: " ∷ message ∷ "\n" ∷ []))

-- A request for the metrics, and the state of `inFlight` behind it; the last component says whether
-- `renderMetrics` was called.
unfoldable pub request_metrics : Option InFlight → Render → Option InFlight × Answer × Bool
request_metrics (some pending) render = (some pending, waits, false)
request_metrics (some (rejected message)) render =
    (some (rejected message), answers (answer (failed message)), false)
request_metrics none returns = (some pending, waits, true)
request_metrics none (throws message) =
    (some (rejected message), answers (answer (failed message)), true)

-- The registry's text is there, or `registry.metrics()` rejects: all requests that wait are answered.
unfoldable pub settle_metrics : Rendered → Option InFlight × Response
settle_metrics result = (none, answer result)

-- Requests, each with what `renderMetrics` would do, one after the other.
unfoldable pub request_all : Option InFlight → List Render → Option InFlight × List Answer
request_all s [] = (s, [])
request_all s (r ∷ rs) =
    let (s', a, _) = request_metrics s r in let rest = request_all s' rs in (rest.0, a ∷ rest.1)

abbrev pub Every : {A : Type 0} → A → List A → Type 0
Every a [] = Unit
Every a (x ∷ xs) = (x ≡ a) × Every a xs

joins :
    (rs : List Render)
    → Every waits (request_all (some pending) rs).1
      × ((request_all (some pending) rs).0 ≡ some pending)
unfolding request_all request_metrics
joins [] = (tt, refl)
joins (r ∷ rs) = ((refl, (joins rs).0), (joins rs).1)

-- If `renderMetrics` returns for a request that finds no render under way, then that request and
-- every further one, until the render settles, waits for this one render, whatever `renderMetrics`
-- would do if it were called again.
pub request_all_joins :
    (rs : List Render)
    → Every waits (request_all none (returns ∷ rs)).1
      × ((request_all none (returns ∷ rs)).0 ≡ some pending)
unfolding request_all request_metrics
request_all_joins rs = ((refl, (joins rs).0), (joins rs).1)

latched :
    (m : String) (rs : List Render)
    → Every (answers (answer (failed m))) (request_all (some (rejected m)) rs).1
      × ((request_all (some (rejected m)) rs).0 ≡ some (rejected m))
unfolding request_all request_metrics
latched m [] = (tt, refl)
latched m (r ∷ rs) = ((refl, (latched m rs).0), (latched m rs).1)

-- If `renderMetrics` throws once while no render is under way, then that request and every request
-- after it, for good, is answered by the same status 500, also if `renderMetrics` would return again.
pub request_all_latches :
    (m : String) (rs : List Render)
    → Every (answers (answer (failed m))) (request_all none (throws m ∷ rs)).1
      × ((request_all none (throws m ∷ rs)).0 ≡ some (rejected m))
unfolding request_all request_metrics
request_all_latches m rs = ((refl, (latched m rs).0), (latched m rs).1)
