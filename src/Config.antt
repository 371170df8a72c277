-- ===== src/Config.antt =====
-- src/config: the configuration that the environment variables give.
-- types.ts and secret.ts are here; the children hold validate.ts, load.ts and redact-summary.ts.
-- The texts of errors and warnings are values that name what the texts say.
pub mod Values
pub mod Families
pub mod Backend
pub mod Validate
pub mod EnvFile
pub mod Summary
mod Examples
use ftd_metrics_exporter.Prelude.{ℕ, String, Bool, List, [], ◌∷◌, Option}
use ftd_metrics_exporter.Prelude.Int.{ℤ}

-- The environment: `env[name]`.
abbrev pub Env : Type 0
Env = String → Option String

abbrev pub time_range_values : List String
time_range_values = "5m" ∷ "15m" ∷ "30m" ∷ "1h" ∷ []

abbrev pub log_level_values : List String
log_level_values = "error" ∷ "warn" ∷ "info" ∷ "debug" ∷ []

abbrev pub log_format_values : List String
log_format_values = "json" ∷ "text" ∷ []

abbrev pub metric_family_values : List String
metric_family_values = "CPU" ∷ "MEM" ∷ "INTERFACE" ∷ "DISK_STATS" ∷ "CHASSIS_STATS" ∷ []

abbrev pub tls_min_version_values : List String
tls_min_version_values = "TLSv1.2" ∷ "TLSv1.3" ∷ []

-- A credential, which only `reveal` gives back.
pub record Secret : Type 0 where
  pub reveal : String

-- `toString` and `toJSON` of a credential.
unfoldable pub secret_to_string : Secret → String
secret_to_string secret = "[REDACTED]"

pub record SccBackendConfig : Type 0 where
  pub base_url : String
  pub api_token : Secret
  pub fmc_uid : String
  pub time_range : String
  pub inventory_poll_interval_seconds : ℕ
  pub license_poll_interval_seconds : ℕ
  pub certificate_poll_interval_seconds : ℕ

pub record FmcBackendConfig : Type 0 where
  pub host : String
  pub username : String
  pub password : Secret
  pub domain_uuid : Option String
  pub ca_bundle_path : Option String
  pub tls_insecure_skip_verify : Bool
  pub max_concurrent_requests : ℕ
  pub discovery_interval_seconds : ℕ
  pub metric_families : List String
  pub time_range : String
  pub license_poll_interval_seconds : ℕ
  pub certificate_poll_interval_seconds : ℕ

pub data BackendConfig : Type 0 where
  scc_backend : SccBackendConfig → BackendConfig
  fmc_backend : FmcBackendConfig → BackendConfig

pub record MetricsTlsConfig : Type 0 where
  pub cert_path : String
  pub key_path : String
  pub min_version : String
  pub client_ca_path : Option String

pub record AppConfig : Type 0 where
  pub backend : BackendConfig
  pub metrics_port : ℕ
  pub metrics_bind_address : String
  pub poll_interval_seconds : ℕ
  pub log_level : String
  pub log_format : String
  pub request_timeout_seconds : ℕ
  pub enable_default_metrics : Bool
  pub metrics_tls : Option MetricsTlsConfig

-- The value of `BACKEND_TYPE`.
pub data BackendType : Type 0 where
  scc : BackendType
  fmc : BackendType

-- The entries of `errors`.
pub data Problem : Type 0 where
  backend_type_unset : Problem
  backend_type_unknown : (raw : String) → Problem
  required_unset : (name : String) → Problem
  not_an_integer : (name raw : String) → Problem
  out_of_range : (name : String) → (min : ℕ) → (max : Option ℕ) → ℤ → Problem
  poll_not_positive : ℤ → Problem
  poll_too_long : ℕ → Problem
  poll_too_short_for_scc : ℕ → Problem
  not_one_of : (name : String) → (allowed : List String) → (raw : String) → Problem
  not_a_boolean : (name raw : String) → Problem
  not_a_regular_file : (name path : String) → Problem
  not_readable : (name path : String) → Problem
  not_a_url : (raw : String) → Problem
  not_https : (raw : String) → Problem
  invalid_family : (token : String) → Problem
  no_family : (raw : String) → Problem
  insecure_with_ca_bundle : Problem
  client_ca_without_tls : Problem
  cert_without_key : (cert key : Option String) → Problem

pub data Severity : Type 0 where
  warn : Severity
  error : Severity

pub data Notice : Type 0 where
  no_effect : (name : String) → (backend : BackendType) → Notice
  legacy_hostname : String → Notice
  tls_verification_disabled : Notice

pub record ConfigWarning : Type 0 where
  pub severity : Severity
  pub message : Notice

-- What a validator returns, and what it pushes to `errors` on the way.
pub record Checked (A : Type 0) : Type 0 where
  pub value : A
  pub errors : List Problem
