-- ===== src/Config/Summary.antt =====
-- src/config/redact-summary.ts: the summary of the configuration that is logged at startup.
pub mod Laws
use Prim.Native.String
use ftd_metrics_exporter.Prelude.{
  ℕ, String, Bool, true, false, ◌||◌, List, [], ◌∷◌, ◌++◌, Option, none, some, if◌then◌else◌,
}
use ftd_metrics_exporter.Prelude.Text.{concat, decimal}
use ftd_metrics_exporter.Metrics.Enums.{lowercase_enum_label}
use ftd_metrics_exporter.Config.{
  Secret, secret_to_string, SccBackendConfig, FmcBackendConfig, BackendConfig, scc_backend,
  fmc_backend, MetricsTlsConfig, AppConfig,
}
use ftd_metrics_exporter.Config.Backend.{after_prefix, is_present}

-- A value that a line shows.
pub data Shown : Type 0 where
  unset : Shown
  text : String → Shown
  texts : List String → Shown
  credential : Secret → Shown

-- `text.includes(part)`
unfoldable pub includes_text : (part text : String) → Bool
includes_text part String.[] = is_present (after_prefix part String.[])
includes_text part (String.◌∷◌ c s) =
    is_present (after_prefix part (String.◌∷◌ c s)) || includes_text part s

abbrev pub secret_key_parts : List String
secret_key_parts =
    "token" ∷ "password" ∷ "secret" ∷ "apikey" ∷ "api_key" ∷ "bearer" ∷ "authorization" ∷ []

unfoldable pub includes_one_of : List String → String → Bool
includes_one_of [] s = false
includes_one_of (part ∷ parts) s = includes_text part s || includes_one_of parts s

-- SECRET_KEY_PATTERN, whose test ignores the case of ASCII letters.
unfoldable pub is_secret_key : String → Bool
is_secret_key key = includes_one_of secret_key_parts (lowercase_enum_label key)

unfoldable pub redact_value : (key : String) → Shown → Shown
redact_value key (credential secret) = text "[REDACTED]"
redact_value key value = if is_secret_key key then text "[REDACTED]" else value

-- `list.join(separator)`
unfoldable pub join : (separator : String) → List String → String
join separator [] = ""
join separator (s ∷ []) = s
join separator (s ∷ t ∷ ss) = concat (s ∷ separator ∷ join separator (t ∷ ss) ∷ [])

unfoldable pub format_line : (key : String) → Shown → String
format_line key unset = concat ("  " ∷ key ∷ ": (unset)" ∷ [])
format_line key (texts values) = concat ("  " ∷ key ∷ ": " ∷ join "," values ∷ [])
format_line key (text value) = concat ("  " ∷ key ∷ ": " ∷ value ∷ [])
format_line key (credential secret) = concat ("  " ∷ key ∷ ": " ∷ secret_to_string secret ∷ [])

abbrev pub number : ℕ → Shown
number n = text (decimal n)

abbrev pub boolean : Bool → Shown
boolean true = text "true"
boolean false = text "false"

abbrev pub optional : Option String → Shown
optional none = unset
optional (some s) = text s

abbrev pub kind_of : BackendConfig → String
kind_of (scc_backend c) = "scc"
kind_of (fmc_backend c) = "fmc"

unfoldable pub scc_lines : SccBackendConfig → List String
scc_lines backend =
    format_line "SCC_BASE_URL" (text backend.base_url)
    ∷ format_line "SCC_API_TOKEN" (redact_value "SCC_API_TOKEN" (credential backend.api_token))
    ∷ format_line "SCC_FMC_UID" (text backend.fmc_uid)
    ∷ format_line "SCC_TIME_RANGE" (text backend.time_range)
    ∷ format_line "SCC_INVENTORY_POLL_INTERVAL_SECONDS"
        (number backend.inventory_poll_interval_seconds)
    ∷ []

unfoldable pub fmc_lines : FmcBackendConfig → List String
fmc_lines backend =
    format_line "FMC_HOST" (text backend.host)
    ∷ format_line "FMC_USERNAME" (text backend.username)
    ∷ format_line "FMC_PASSWORD" (redact_value "FMC_PASSWORD" (credential backend.password))
    ∷ format_line "FMC_DOMAIN_UUID" (optional backend.domain_uuid)
    ∷ format_line "FMC_CA_BUNDLE_PATH" (optional backend.ca_bundle_path)
    ∷ format_line "FMC_TLS_INSECURE_SKIP_VERIFY" (boolean backend.tls_insecure_skip_verify)
    ∷ format_line "FMC_MAX_CONCURRENT_REQUESTS" (number backend.max_concurrent_requests)
    ∷ format_line "FMC_DISCOVERY_INTERVAL_SECONDS" (number backend.discovery_interval_seconds)
    ∷ format_line "FMC_METRIC_FAMILIES" (texts backend.metric_families)
    ∷ format_line "FMC_TIME_RANGE" (text backend.time_range)
    ∷ []

abbrev pub backend_lines : BackendConfig → List String
backend_lines (scc_backend c) = scc_lines c
backend_lines (fmc_backend c) = fmc_lines c

abbrev pub tls_lines : Option MetricsTlsConfig → List String
tls_lines none = []
tls_lines (some tls) =
    format_line "METRICS_TLS_CERT_PATH" (text tls.cert_path)
    ∷ format_line "METRICS_TLS_KEY_PATH" (text tls.key_path)
    ∷ format_line "METRICS_TLS_MIN_VERSION" (text tls.min_version)
    ∷ format_line "METRICS_TLS_CLIENT_CA_PATH" (optional tls.client_ca_path)
    ∷ []

unfoldable pub summary_lines : AppConfig → List String
summary_lines config =
    "Effective configuration:"
    ∷ format_line "BACKEND_TYPE" (text (kind_of config.backend))
    ∷ format_line "METRICS_PORT" (number config.metrics_port)
    ∷ format_line "METRICS_BIND_ADDRESS" (text config.metrics_bind_address)
    ∷ format_line "POLL_INTERVAL_SECONDS" (number config.poll_interval_seconds)
    ∷ format_line "LOG_LEVEL" (text config.log_level)
    ∷ format_line "LOG_FORMAT" (text config.log_format)
    ∷ format_line "REQUEST_TIMEOUT_SECONDS" (number config.request_timeout_seconds)
    ∷ format_line "ENABLE_DEFAULT_METRICS" (boolean config.enable_default_metrics)
    ∷ (backend_lines config.backend ++ tls_lines config.metrics_tls)

unfoldable pub format_config_summary : AppConfig → String
format_config_summary config = join "\n" (summary_lines config)
