-- ===== src/Config/Validate.antt =====
-- src/config/validate.ts: `validateMetricsTls` and `validate`.
pub mod Laws
pub mod Outcomes
pub mod Wishes
pub mod Warnings
use ftd_metrics_exporter.Prelude.{
  ℕ, ◌++◌, flatten, String, Bool, true, false, ◌||◌, not, List, [], ◌∷◌, Option, none, some,
  if◌then◌else◌,
}
use ftd_metrics_exporter.Config.{
  Env, BackendConfig, MetricsTlsConfig, AppConfig, BackendType, scc, fmc, Problem,
  client_ca_without_tls, cert_without_key, ConfigWarning, Checked, log_level_values,
  log_format_values, tls_min_version_values,
}
use ftd_metrics_exporter.Config.Values.{
  non_empty, value_or, max_timer_seconds, IntRange, validate_backend_type, validate_positive_int,
  validate_poll_interval, validate_enum, validate_boolean, FileAccess, check_readable_path,
  check_optional_path,
}
use ftd_metrics_exporter.Config.Backend.{
  Url, CheckedBackend, timer_range, report_cross_backend_vars, validate_scc_backend,
  validate_fmc_backend,
}

abbrev pub client_ca_problems : (file_at : String → FileAccess) → Option String → List Problem
client_ca_problems file_at none = []
client_ca_problems file_at (some path) =
    check_readable_path file_at path "METRICS_TLS_CLIENT_CA_PATH" ++ (client_ca_without_tls ∷ [])

-- The end of `validateMetricsTls`, for the paths of certificate, key and client CA, less the errors of
-- the version.
unfoldable pub tls_config :
    (file_at : String → FileAccess)
    → (cert key client_ca : Option String) → (min_version : String)
    → Checked (Option MetricsTlsConfig)
tls_config file_at none none client_ca min_version = record {
  value = none;
  errors = client_ca_problems file_at client_ca;
}
tls_config file_at (some cert) (some key) client_ca min_version = record {
  value = some (record {
    cert_path = cert;
    key_path = key;
    min_version = min_version;
    client_ca_path = client_ca;
  });
  errors = flatten (
      check_readable_path file_at cert "METRICS_TLS_CERT_PATH"
      ∷ check_readable_path file_at key "METRICS_TLS_KEY_PATH"
      ∷ check_optional_path file_at client_ca "METRICS_TLS_CLIENT_CA_PATH"
      ∷ []);
}
tls_config file_at cert key client_ca min_version = record {
  value = none;
  errors = cert_without_key cert key ∷ [];
}

unfoldable pub validate_metrics_tls :
    (file_at : String → FileAccess) → Env → Checked (Option MetricsTlsConfig)
validate_metrics_tls file_at env =
    let min_version =
      validate_enum env "METRICS_TLS_MIN_VERSION" tls_min_version_values "TLSv1.2" in
    let tls =
      tls_config file_at (non_empty (env "METRICS_TLS_CERT_PATH"))
        (non_empty (env "METRICS_TLS_KEY_PATH")) (non_empty (env "METRICS_TLS_CLIENT_CA_PATH"))
        min_version.value in
    record { value = tls.value; errors = min_version.errors ++ tls.errors }

pub data ValidationResult : Type 0 where
  accepted : AppConfig → List ConfigWarning → ValidationResult
  rejected : (errors : List Problem) → List ConfigWarning → ValidationResult

abbrev pub port_range : Option IntRange
port_range = some (record { min = some 1; max = some 65535 })

unfoldable pub app_config :
    (file_at : String → FileAccess) → Env → Option BackendType → BackendConfig → AppConfig
app_config file_at env backend_type backend = record {
  backend = backend;
  metrics_port = (validate_positive_int env "METRICS_PORT" 10049 port_range).value;
  metrics_bind_address = value_or "0.0.0.0" (non_empty (env "METRICS_BIND_ADDRESS"));
  poll_interval_seconds = (validate_poll_interval env backend_type).value;
  log_level = (validate_enum env "LOG_LEVEL" log_level_values "info").value;
  log_format = (validate_enum env "LOG_FORMAT" log_format_values "json").value;
  request_timeout_seconds =
      (validate_positive_int env "REQUEST_TIMEOUT_SECONDS" 30 timer_range).value;
  enable_default_metrics = (validate_boolean env "ENABLE_DEFAULT_METRICS" true).value;
  metrics_tls = (validate_metrics_tls file_at env).value;
}

-- `errors.length > 0 || backend === undefined`
abbrev pub outcome :
    List Problem
    → Option BackendConfig
    → (BackendConfig → AppConfig)
    → List ConfigWarning
    → ValidationResult
outcome [] (some backend) config warnings = accepted (config backend) warnings
outcome errors _ config warnings = rejected errors warnings

module _ (parse_url : String → Option Url) (file_at : String → FileAccess) where
  unfoldable pub validate_backend : Env → Option BackendType → CheckedBackend (Option BackendConfig)
  validate_backend env none = record { value = none; errors = []; warnings = [] }
  validate_backend env (some scc) = validate_scc_backend parse_url env
  validate_backend env (some fmc) = validate_fmc_backend file_at env

  -- What all validators push to `errors`, in the order in which they run.
  unfoldable pub all_errors : Env → Option BackendType → List Problem
  all_errors env backend_type = flatten (
      (validate_positive_int env "METRICS_PORT" 10049 port_range).errors
      ∷ (validate_poll_interval env backend_type).errors
      ∷ (validate_enum env "LOG_LEVEL" log_level_values "info").errors
      ∷ (validate_enum env "LOG_FORMAT" log_format_values "json").errors
      ∷ (validate_positive_int env "REQUEST_TIMEOUT_SECONDS" 30 timer_range).errors
      ∷ (validate_boolean env "ENABLE_DEFAULT_METRICS" true).errors
      ∷ (validate_backend env backend_type).errors
      ∷ (validate_metrics_tls file_at env).errors
      ∷ [])

  unfoldable pub validate : Env → ValidationResult
  validate env =
      let backend_type = validate_backend_type env in
      let backend = validate_backend env backend_type.value in
      outcome (backend_type.errors ++ all_errors env backend_type.value) backend.value
        (app_config file_at env backend_type.value)
        (report_cross_backend_vars env backend_type.value ++ backend.warnings)
