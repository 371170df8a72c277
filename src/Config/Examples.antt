-- ===== src/Config/Examples.antt =====
-- The theorems about the configuration at concrete environments.
use ftd_metrics_exporter.Prelude.{
  ◌≡◌, ◌≢◌, ◌++◌, refl, arith, String, Bool, true, List, [], ◌∷◌, Option, none, some, str_eq,
  if◌then◌else◌, flatten,
}
use ftd_metrics_exporter.Config.{
  Env, AppConfig, fmc_backend, FmcBackendConfig, MetricsTlsConfig, backend_type_unset,
  ConfigWarning,
}
use ftd_metrics_exporter.Prelude.Text.{
  decimal, trim, trim_end, trim_start, is_space, all_digits, digits_value, split_on, decimal_fuel,
  concat,
}
use ftd_metrics_exporter.Config.Values.{
  FileAccess, is_file, validate_positive_int, validate_enum, non_empty, validate_backend_type,
  parse_integer, parse_trimmed_integer, safe_magnitude, check_range, validate_poll_interval,
  check_poll_interval, validate_time_range, validate_boolean, check_readable_path,
}
use ftd_metrics_exporter.Config.Backend.{
  Url, wrong_block, report_cross_backend_vars, insecure_errors, insecure_warnings, with_credentials,
  validate_fmc_backend,
}
use ftd_metrics_exporter.Config.Validate.{
  accepted, rejected, validate, tls_config, validate_metrics_tls, validate_backend, all_errors,
  app_config,
}
use ftd_metrics_exporter.Metrics.Enums.{lowercase_enum_label, replaced}
use ftd_metrics_exporter.Config.Families.{
  to_upper, not_blank, family_tokens, families_of, check_tokens, check_families,
  validate_metric_families,
}
use ftd_metrics_exporter.Config.Validate.Laws.{IsValid, validate-IsValid}
use ftd_metrics_exporter.Config.Validate.Outcomes.{validate-rejected}
use ftd_metrics_exporter.Config.Validate.Wishes.{validate_positive_int-decimal, validate-client_ca}
use ftd_metrics_exporter.Config.Validate.Warnings.{loud_warning, validate-loud}
use ftd_metrics_exporter.Config.EnvFile.{
  LoadOutcome, loads, config, load_config, load_from, resolve_env_file_path, is_explicit,
  load_env_file, after_load, from_env, checked_result,
}
use ftd_metrics_exporter.Config.EnvFile.Laws.{IsSource, load_config-IsValid}
use ftd_metrics_exporter.Config.Summary.{format_config_summary}
use ftd_metrics_exporter.Config.Summary.Laws.{with_secret, format_config_summary-with_secret}

abbrev lookup : List (String × String) → Env
lookup [] name = none
lookup ((key, value) ∷ rest) name = if str_eq key name then some value else lookup rest name

abbrev no_url : String → Option Url
no_url raw = none

abbrev all_files : String → FileAccess
all_files path = is_file true

-- The FMC backend, with TLS on the endpoint and none towards the FMC.
abbrev fmc_env : Env
fmc_env = lookup (
    ("BACKEND_TYPE", "fmc")
    ∷ ("FMC_HOST", "fmc.lab")
    ∷ ("FMC_USERNAME", "exporter")
    ∷ ("FMC_PASSWORD", "hunter2")
    ∷ ("FMC_TLS_INSECURE_SKIP_VERIFY", "true")
    ∷ ("FMC_METRIC_FAMILIES", "cpu, mem")
    ∷ ("METRICS_PORT", "9100")
    ∷ ("METRICS_TLS_CERT_PATH", "/c.pem")
    ∷ ("METRICS_TLS_KEY_PATH", "/k.pem")
    ∷ ("METRICS_TLS_CLIENT_CA_PATH", "/ca.pem")
    ∷ [])

abbrev fmc_of_env : FmcBackendConfig
fmc_of_env = record {
  host = "fmc.lab";
  username = "exporter";
  password = record { reveal = "hunter2" };
  domain_uuid = none;
  ca_bundle_path = none;
  tls_insecure_skip_verify = true;
  max_concurrent_requests = 5;
  discovery_interval_seconds = 900;
  metric_families = "CPU" ∷ "MEM" ∷ [];
  time_range = "5m";
  license_poll_interval_seconds = 3600;
  certificate_poll_interval_seconds = 3600;
}

abbrev config_of_env : AppConfig
config_of_env = record {
  backend = fmc_backend fmc_of_env;
  metrics_port = 9100;
  metrics_bind_address = "0.0.0.0";
  poll_interval_seconds = 60;
  log_level = "info";
  log_format = "json";
  request_timeout_seconds = 30;
  enable_default_metrics = true;
  metrics_tls = some (record {
    cert_path = "/c.pem";
    key_path = "/k.pem";
    min_version = "TLSv1.2";
    client_ca_path = some "/ca.pem";
  });
}

fmc_env-accepted : validate no_url all_files fmc_env ≡ accepted config_of_env (loud_warning ∷ [])
unfolding non_empty validate_backend_type parse_integer parse_trimmed_integer safe_magnitude
    check_range validate_positive_int validate_poll_interval check_poll_interval validate_enum
    validate_time_range validate_boolean check_readable_path trim trim_end trim_start is_space
    all_digits digits_value split_on decimal decimal_fuel concat lowercase_enum_label replaced
    to_upper not_blank family_tokens families_of check_tokens check_families
    validate_metric_families wrong_block report_cross_backend_vars insecure_errors insecure_warnings
    with_credentials validate_fmc_backend tls_config validate_metrics_tls validate_backend
    all_errors app_config validate flatten
fmc_env-accepted = refl

validate-IsValid_example : IsValid no_url all_files fmc_env config_of_env
validate-IsValid_example =
    validate-IsValid no_url all_files fmc_env config_of_env (loud_warning ∷ []) fmc_env-accepted

validate-client_ca_example :
    (tls : MetricsTlsConfig) × (config_of_env.metrics_tls ≡ some tls)
    × (tls.client_ca_path ≡ some "/ca.pem")
unfolding trim trim_end trim_start is_space
validate-client_ca_example =
    validate-client_ca no_url all_files fmc_env "/ca.pem" config_of_env (loud_warning ∷ []) refl
      refl fmc_env-accepted

validate-loud_example :
    (before : List ConfigWarning) × (loud_warning ∷ [] ≡ before ++ (loud_warning ∷ []))
validate-loud_example =
    validate-loud no_url all_files fmc_env config_of_env (loud_warning ∷ []) fmc_of_env
      fmc_env-accepted refl refl

abbrev empty_env : Env
empty_env name = none

empty_env-rejected : validate no_url all_files empty_env ≡ rejected (backend_type_unset ∷ []) []
unfolding non_empty validate_backend_type parse_integer parse_trimmed_integer safe_magnitude
    check_range validate_positive_int validate_poll_interval check_poll_interval validate_enum
    validate_time_range validate_boolean check_readable_path trim trim_end trim_start is_space
    all_digits digits_value split_on decimal decimal_fuel concat lowercase_enum_label replaced
    to_upper not_blank family_tokens families_of check_tokens check_families
    validate_metric_families wrong_block report_cross_backend_vars insecure_errors insecure_warnings
    with_credentials validate_fmc_backend tls_config validate_metrics_tls validate_backend
    all_errors app_config validate flatten
empty_env-rejected = refl

validate-rejected_example : backend_type_unset ∷ [] ≢ []
validate-rejected_example =
    validate-rejected no_url all_files empty_env (backend_type_unset ∷ []) [] empty_env-rejected

validate_positive_int-decimal_example :
    validate_positive_int fmc_env "METRICS_PORT" 10049
      (some (record { min = some 1; max = some 65535 }))
    ≡ record { value = 9100; errors = [] }
unfolding decimal decimal_fuel
validate_positive_int-decimal_example =
    validate_positive_int-decimal fmc_env "METRICS_PORT" 10049 1 65535 9100 (omega arith)
      (omega arith, omega arith) refl

abbrev env_file : String → LoadOutcome
env_file path = loads fmc_env

abbrev file_exists : String → Bool
file_exists path = true

loaded :
    load_config no_url all_files env_file file_exists empty_env []
    ≡ config config_of_env (loud_warning ∷ [])
unfolding load_config load_from resolve_env_file_path is_explicit load_env_file after_load from_env
    checked_result non_empty validate_backend_type parse_integer parse_trimmed_integer
    safe_magnitude check_range validate_positive_int validate_poll_interval check_poll_interval
    validate_enum validate_time_range validate_boolean check_readable_path trim trim_end trim_start
    is_space all_digits digits_value split_on decimal decimal_fuel concat lowercase_enum_label
    replaced to_upper not_blank family_tokens families_of check_tokens check_families
    validate_metric_families wrong_block report_cross_backend_vars insecure_errors insecure_warnings
    with_credentials validate_fmc_backend tls_config validate_metrics_tls validate_backend
    all_errors app_config validate flatten
loaded = refl

load_config-IsValid_example :
    (e : Env) × (IsSource env_file file_exists empty_env e)
    × (IsValid no_url all_files e config_of_env)
load_config-IsValid_example =
    load_config-IsValid no_url all_files env_file file_exists empty_env [] config_of_env
      (loud_warning ∷ []) loaded

format_config_summary-with_secret_example :
    format_config_summary (record config_of_env {
      backend = with_secret (record { reveal = "letmein" }) config_of_env.backend;
    })
    ≡ format_config_summary config_of_env
format_config_summary-with_secret_example =
    format_config_summary-with_secret config_of_env (record { reveal = "letmein" })
