-- ===== src/Server/Routes.antt =====
-- src/server/routes.ts: the answers of the four routes.
-- A request is its `url` and `method`, either of which may be missing. The callbacks that the handler
-- is given are values: what they return, or that they throw.
pub mod Laws
pub mod Renderer
use Prim.Native.Char.{code}
use Prim.Native.String
use Prim.Native.String.{String}
use ftd_metrics_exporter.Prelude.{
  ℕ, Bool, true, false, not, ◌&&◌, ◌||◌, List, [], ◌∷◌, Option, none, some, ◌==◌, if◌then◌else◌,
  str_eq, includes,
}

-- What `endWith` writes; `allow` is the `Allow` header.
pub record Response : Type 0 where
  pub status_code : ℕ
  pub content_type : String
  pub body : String
  pub allow : Option String

-- A call of `isAlive` or `isReady`.
pub data Check : Type 0 where
  returns : Bool → Check
  throws : Check

pub record RouteDeps : Type 0 where
  pub is_alive : Check
  pub is_ready : Check

pub record Probe : Type 0 where
  pub ok : Bool
  pub threw : Bool

unfoldable pub probe : Check → Probe
probe (returns b) = record { ok = b; threw = false }
probe throws = record { ok = false; threw = true }

abbrev pub plain : ℕ → String → Response
plain status_code body = record {
  status_code = status_code;
  content_type = "text/plain; charset=utf-8";
  body = body;
  allow = none;
}

unfoldable pub handle_healthz : RouteDeps → Response
handle_healthz deps =
    let result = probe deps.is_alive in
    if result.ok
    then plain 200 "ok\n"
    else if result.threw
    then plain 503 "not alive — liveness check itself failed\n"
    else plain 503 "not alive\n"

unfoldable pub handle_readyz : RouteDeps → Response
handle_readyz deps =
    let result = probe deps.is_ready in
    if result.ok
    then plain 200 "ready\n"
    else if result.threw
    then plain 503 "not ready — readiness check itself failed\n"
    else plain 503 "not ready — no successful poll yet\n"

abbrev pub landing_page_html : String
landing_page_html =
    "<!DOCTYPE html>\n<html lang=\"en\">\n<head><meta charset=\"utf-8\"><title>FTD Metrics Exporter</title></head>\n<body>\n<h1>FTD Metrics Exporter</h1>\n<p><a href=\"/metrics\">Metrics</a></p>\n</body>\n</html>\n"

abbrev pub known_paths : List String
known_paths = "/" ∷ "/metrics" ∷ "/healthz" ∷ "/readyz" ∷ []

abbrev pub allowed_methods : String
allowed_methods = "GET, HEAD"

abbrev pub landing_page : Response
landing_page = record {
  status_code = 200;
  content_type = "text/html; charset=utf-8";
  body = landing_page_html;
  allow = none;
}

abbrev pub not_found : Response
not_found = plain 404 "not found\n"

abbrev pub method_not_allowed : Response
method_not_allowed = record (plain 405 "method not allowed\n") { allow = some allowed_methods }

abbrev pub or_default : String → Option String → String
or_default default none = default
or_default default (some s) = s

-- `url.split('?', 1)[0]`.
unfoldable pub before_query : String → String
before_query String.[] = String.[]
before_query (String.◌∷◌ c s) =
    let rest = before_query s in if code c == b'?' then String.[] else String.◌∷◌ c rest

abbrev pub is_get_or_head : String → Bool
is_get_or_head method = str_eq method "GET" || str_eq method "HEAD"

-- The handler answers at once, or asks the renderer of the metrics.
pub data Handled : Type 0 where
  responds : Response → Handled
  renders : Handled

unfoldable pub handle_path : RouteDeps → String → Handled
handle_path deps path =
    if str_eq "/" path
    then responds landing_page
    else if str_eq "/metrics" path
    then renders
    else if str_eq "/healthz" path
    then responds (handle_healthz deps)
    else if str_eq "/readyz" path
    then responds (handle_readyz deps)
    else responds not_found

-- The listener that `createRequestHandler` gives.
unfoldable pub handle_request : RouteDeps → (url method : Option String) → Handled
handle_request deps url method =
    let path = before_query (or_default "/" url) in
    if includes known_paths path && not (is_get_or_head (or_default "" method))
    then responds method_not_allowed
    else handle_path deps path
