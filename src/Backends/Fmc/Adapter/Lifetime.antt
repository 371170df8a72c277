-- ===== src/Backends/Fmc/Adapter/Lifetime.antt =====
-- src/backends/fmc/adapter.ts: `init`, `requireInitialized` and `close`.
-- The state says which of the adapter's variables are set. What `init` calls is a record of results:
-- reading the CA bundle, `getToken`, `resolveDomainUuid` and the first discovery.
use ftd_metrics_exporter.Prelude.{
  String, Bool, true, false, not, ◌&&◌, List, [], ◌∷◌, ◌++◌, Option, none, some, if◌then◌else◌,
}
use ftd_metrics_exporter.Backends.Fmc.Domain.{InfoReply, resolve_domain_uuid}
use ftd_metrics_exporter.Backends.Fmc.Discovery.{FmcDiscoveredDevice}

pub record Adapter : Type 0 where
  pub initialized : Bool
  pub closed : Bool
  pub dispatcher : Bool
  pub owns_dispatcher : Bool
  pub http_client : Bool
  pub token_manager : Bool
  pub discovery : Bool
  pub limiter : Bool
  pub budget_guard : Bool
  pub domain_uuid : Option String
  pub caches : Bool

unfoldable pub create_fmc_adapter : Adapter
create_fmc_adapter = record {
  initialized = false;
  closed = false;
  dispatcher = false;
  owns_dispatcher = false;
  http_client = false;
  token_manager = false;
  discovery = false;
  limiter = false;
  budget_guard = false;
  domain_uuid = none;
  caches = false;
}

pub record Surroundings : Type 0 where
  pub given_dispatcher : Bool
  pub ca_readable : Bool
  pub token_given : Bool
  pub configured_domain : Option String
  pub header_domain : Option String
  pub info_reply : InfoReply
  pub devices : List FmcDiscoveredDevice
  pub first_discovery_failed : Bool

pub data InitResult : Type 0 where
  ready : InitResult
  called_twice ca_unreadable no_token no_domain no_discovery : InitResult

-- The variables that are set before the first request.
abbrev pub with_clients : Bool → Adapter → Adapter
with_clients given a = record a {
  dispatcher = true;
  owns_dispatcher = not given;
  http_client = true;
  limiter = true;
  budget_guard = true;
  token_manager = true;
}

abbrev pub is_nil : List FmcDiscoveredDevice → Bool
is_nil [] = true
is_nil (d ∷ ds) = false

-- `init` from the discovery on.
unfoldable pub init_discovery :
    Surroundings → Adapter → (domain : Option String) → Adapter × InitResult
init_discovery s a none = (a, no_domain)
init_discovery s a (some domain) =
    if is_nil s.devices && s.first_discovery_failed
    then (record a { domain_uuid = some domain; discovery = true }, no_discovery)
    else (record a { domain_uuid = some domain; discovery = true; caches = true }, ready)

unfoldable pub init : Surroundings → Adapter → Adapter × InitResult
init s a =
    if a.initialized
    then (a, called_twice)
    else if not s.given_dispatcher && not s.ca_readable
    then (record a { initialized = true }, ca_unreadable)
    else if not s.token_given
    then (with_clients s.given_dispatcher (record a { initialized = true }), no_token)
    else init_discovery s (with_clients s.given_dispatcher (record a { initialized = true }))
        (resolve_domain_uuid s.configured_domain s.header_domain s.info_reply)

abbrev pub is_set : Option String → Bool
is_set none = false
is_set (some s) = true

-- `requireInitialized`: whether it returns.
unfoldable pub require_initialized : Adapter → Bool
require_initialized a =
    a.http_client
    && a.token_manager
    && a.discovery
    && a.limiter
    && a.budget_guard
    && is_set a.domain_uuid

-- What `close` closes.
pub data Closing : Type 0 where
  tokens client raw_dispatcher : Closing

abbrev pub close_client : Adapter → List Closing
close_client a =
    if a.http_client
    then client ∷ []
    else if a.owns_dispatcher && a.dispatcher
    then raw_dispatcher ∷ []
    else []

abbrev pub cleared : Adapter → Adapter
cleared a = record a {
  closed = true;
  http_client = false;
  token_manager = false;
  discovery = false;
  limiter = false;
  budget_guard = false;
  domain_uuid = none;
  caches = false;
}

unfoldable pub close : Adapter → Adapter × List Closing
close a =
    if a.closed
    then (a, [])
    else (cleared a, if a.token_manager then tokens ∷ close_client a else close_client a)

-- A call that runs to its end before the next one.
pub data Step : Type 0 where
  init_call : Surroundings → Step
  close_call : Step

unfoldable pub run : Adapter → List Step → Adapter × List Closing
run a [] = (a, [])
run a (init_call s ∷ steps) = run (init s a).0 steps
run a (close_call ∷ steps) =
    let (a', closings) = run (close a).0 steps in (a', (close a).1 ++ closings)
