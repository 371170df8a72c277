-- ===== src/Backends/Scc/Lifetime.antt =====
-- src/backends/scc/adapter.ts: `init`, the guard of `fetchSnapshot`, and `close`.
-- The state says which of the adapter's variables are set. The domain that `resolveSccDomainUuid` gives
-- is an argument of `init`.
pub mod Laws
use ftd_metrics_exporter.Prelude.{
  String, Bool, true, false, not, ◌&&◌, ◌||◌, List, [], ◌∷◌, ◌++◌, Option, none, some,
  if◌then◌else◌,
}
use ftd_metrics_exporter.Backends.Scc.Adapter.{init_token}

pub record Adapter : Type 0 where
  pub token : Option String
  pub dispatcher : Bool
  pub owns_dispatcher : Bool
  pub http_client : Bool
  pub spacing_guard : Bool
  pub device_inventory : Bool
  pub license_cache : Bool
  pub certificates_cache : Bool
  pub certificates_domain_uuid : Option String
  pub initialized : Bool
  pub closed : Bool

unfoldable pub create_scc_adapter : Adapter
create_scc_adapter = record {
  token = none;
  dispatcher = false;
  owns_dispatcher = false;
  http_client = false;
  spacing_guard = false;
  device_inventory = false;
  license_cache = false;
  certificates_cache = false;
  certificates_domain_uuid = none;
  initialized = false;
  closed = false;
}

-- Which options are given, the token, and whether `minSpacingMs` is a finite number that is not negative.
pub record Options : Type 0 where
  pub api_token : String
  pub given_dispatcher : Bool
  pub spacing_valid : Bool
  pub inventory_interval : Bool
  pub license_interval : Bool
  pub certificate_interval : Bool

pub data InitResult : Type 0 where
  ready : InitResult
  called_twice empty_token range_error : InitResult

abbrev pub is_some : Option String → Bool
is_some none = false
is_some (some s) = true

-- The domain is asked for only if certificates are polled.
abbrev pub domain_of : Options → (resolved : Option String) → Option String
domain_of o resolved = if o.certificate_interval then resolved else none

abbrev pub with_dispatcher : Options → (token : String) → Adapter → Adapter
with_dispatcher o token a = record a {
  token = some token;
  dispatcher = true;
  owns_dispatcher = not o.given_dispatcher;
}

-- `init` behind `createSpacingGuard`.
unfoldable pub with_clients : Options → (resolved : Option String) → Adapter → Adapter
with_clients o resolved a = record a {
  spacing_guard = true;
  http_client = true;
  device_inventory = o.inventory_interval;
  license_cache = o.license_interval;
  certificates_domain_uuid = domain_of o resolved;
  certificates_cache = is_some (domain_of o resolved) && o.certificate_interval;
}

-- `init` from the check of the token on. `createSpacingGuard` may throw after the dispatcher is set.
unfoldable pub init_with :
    Options → (resolved : Option String) → Adapter → (token : Option String) → Adapter × InitResult
init_with o resolved a none = (a, empty_token)
init_with o resolved a (some token) =
    if o.spacing_valid
    then (with_clients o resolved (with_dispatcher o token a), ready)
    else (with_dispatcher o token a, range_error)

unfoldable pub init : Options → (resolved : Option String) → Adapter → Adapter × InitResult
init o resolved a =
    if a.initialized
    then (a, called_twice)
    else init_with o resolved (record a { initialized = true }) (init_token o.api_token)

-- Whether `fetchSnapshot` gets past its guard.
unfoldable pub can_fetch : Adapter → Bool
can_fetch a = a.http_client && a.spacing_guard && is_some a.token

-- What `close` closes.
pub data Closing : Type 0 where
  client raw_dispatcher : Closing

abbrev pub closing_of : Adapter → List Closing
closing_of a =
    if a.http_client
    then client ∷ []
    else if a.owns_dispatcher && a.dispatcher
    then raw_dispatcher ∷ []
    else []

abbrev pub cleared : Adapter → Adapter
cleared a = record a {
  closed = true;
  http_client = false;
  spacing_guard = false;
  token = none;
  dispatcher = false;
  device_inventory = false;
  license_cache = false;
  certificates_cache = false;
  certificates_domain_uuid = none;
}

unfoldable pub close : Adapter → Adapter × List Closing
close a = if a.closed then (a, []) else (cleared a, closing_of a)

-- The states of an adapter whose calls run to their ends, with what has been closed so far.
pub data Reach : Adapter → List Closing → Type 0 where
  created : Reach create_scc_adapter []
  inits :
      {a : Adapter} {cs : List Closing} (o : Options) (resolved : Option String)
      → Reach a cs
      → Reach (init o resolved a).0 cs
  closes : {a : Adapter} {cs : List Closing} → Reach a cs → Reach (close a).0 (cs ++ (close a).1)
