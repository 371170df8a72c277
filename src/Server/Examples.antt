-- ===== src/Server/Examples.antt =====
-- The theorems about the endpoint at concrete inputs; a snapshot is a number here.
use ftd_metrics_exporter.Prelude.{
  ℕ, ◌≡◌, ◌≢◌, ◌⊎◌, String, Bool, true, false, List, [], ◌∷◌, Option, none, some,
}
use ftd_metrics_exporter.Http.Errors.{error}
use ftd_metrics_exporter.Server.Routes.{returns, RouteDeps, handle_healthz, handle_readyz}
use ftd_metrics_exporter.Server.Routes.Renderer.{
  InFlight, pending, rejected, Render, Answer, waits, answers, failed, answer, request_all, Every,
  request_all_joins, request_all_latches,
}
use ftd_metrics_exporter.Server.Routes.Renderer as Renderer
use ftd_metrics_exporter.Server.Routes.Laws.{wired, handle_readyz-loop}
use ftd_metrics_exporter.Poller.{Options, Poller, CycleInput, rejects, SideEffect, loop}

abbrev deps : RouteDeps
deps = record { is_alive = returns true; is_ready = returns false }

abbrev url : Option String
url = some "/metrics?name=up"

abbrev post : Option String
post = some "POST"

abbrev renders_again : List Render
renders_again = Renderer.returns ∷ Renderer.returns ∷ []

abbrev unlucky : List Render
unlucky = Renderer.throws "bad gauge" ∷ renders_again

request_all_latches_example :
    Every (answers (answer (failed "bad gauge"))) (request_all none unlucky).1
    × ((request_all none unlucky).0 ≡ some (rejected "bad gauge"))
request_all_latches_example = request_all_latches "bad gauge" renders_again

abbrev options : Options
options = record { interval_ms = 300_000; max_backoff_ms = 600_000 }

abbrev quiet : SideEffect → Bool
quiet _ = false

abbrev served : Poller ℕ
served = record {
  cache = some (record { snapshots = 1 ∷ []; fetched_at = 5 });
  metrics = record { up = true; last_successful_poll = 5; devices = 1; poll_errors = [] };
  consecutive_failures = 0;
  parse_errors = none;
}

abbrev outage : List (CycleInput ℕ)
outage =
    record {
      fetched = rejects (error "Error" "unreachable");
      recorded = 0;
      aborted = false;
      started_at = 10;
      ended_at = 20;
      wall_ended_at = 20;
    }
    ∷ []

handle_readyz-loop_example :
    ((handle_healthz (wired (loop options quiet served outage).0)).status_code ≡ 200)
    × (((handle_readyz (wired served)).status_code ≡ 503)
        ⊎ ((handle_readyz (wired (loop options quiet served outage).0)).status_code ≡ 200))
    × (((handle_readyz (wired (loop options quiet served outage).0)).status_code ≡ 503)
        ⊎ ((loop options quiet served outage).0.cache ≢ none))
handle_readyz-loop_example = handle_readyz-loop options quiet served outage
