-- ===== src/Config/Backend.antt =====
-- src/config/validate.ts: the validators of a backend's own variables.
-- `new URL(raw)` is the parameter `parse_url`, `none` where it throws.
pub mod Laws
pub mod FmcValid
use Prim.Native.Char.{code}
use Prim.Native.String
use ftd_metrics_exporter.Prelude.{
  ℕ, ◌++◌, flatten, String, Bool, true, false, not, ◌&&◌, ◌||◌, List, [], ◌∷◌, Option, none, some,
  leb, ◌==◌, str_eq, includes, if◌then◌else◌,
}
use ftd_metrics_exporter.Prelude.Text.{is_empty, is_digit}
use ftd_metrics_exporter.Metrics.Enums.{lowercase_enum_label}
use ftd_metrics_exporter.Config.{
  Env, Secret, SccBackendConfig, FmcBackendConfig, BackendConfig, scc_backend, fmc_backend,
  BackendType, scc, fmc, Problem, required_unset, not_a_url, not_https, insecure_with_ca_bundle,
  Severity, warn, error, no_effect, legacy_hostname, tls_verification_disabled, ConfigWarning,
}
use ftd_metrics_exporter.Config.Values.{
  non_empty, maybe, max_timer_seconds, IntRange, validate_positive_int, validate_time_range,
  validate_boolean, FileAccess, check_optional_path,
}
use ftd_metrics_exporter.Config.Families.{validate_metric_families}

abbrev pub scc_only_vars : List String
scc_only_vars =
    "SCC_BASE_URL" ∷ "SCC_API_TOKEN" ∷ "SCC_FMC_UID" ∷ "SCC_TIME_RANGE"
    ∷ "SCC_INVENTORY_POLL_INTERVAL_SECONDS" ∷ "SCC_LICENSE_POLL_INTERVAL_SECONDS"
    ∷ "SCC_CERTIFICATE_POLL_INTERVAL_SECONDS" ∷ []

abbrev pub fmc_only_vars : List String
fmc_only_vars =
    "FMC_HOST" ∷ "FMC_USERNAME" ∷ "FMC_PASSWORD" ∷ "FMC_DOMAIN_UUID" ∷ "FMC_CA_BUNDLE_PATH"
    ∷ "FMC_TLS_INSECURE_SKIP_VERIFY" ∷ "FMC_MAX_CONCURRENT_REQUESTS"
    ∷ "FMC_DISCOVERY_INTERVAL_SECONDS" ∷ "FMC_METRIC_FAMILIES" ∷ "FMC_TIME_RANGE"
    ∷ "FMC_LICENSE_POLL_INTERVAL_SECONDS" ∷ "FMC_CERTIFICATE_POLL_INTERVAL_SECONDS" ∷ []

abbrev pub fmc_only_defaulted_vars : List String
fmc_only_defaulted_vars =
    "FMC_TLS_INSECURE_SKIP_VERIFY" ∷ "FMC_MAX_CONCURRENT_REQUESTS"
    ∷ "FMC_DISCOVERY_INTERVAL_SECONDS" ∷ "FMC_METRIC_FAMILIES" ∷ "FMC_TIME_RANGE"
    ∷ "FMC_LICENSE_POLL_INTERVAL_SECONDS" ∷ "FMC_CERTIFICATE_POLL_INTERVAL_SECONDS" ∷ []

abbrev pub scc_only_defaulted_vars : List String
scc_only_defaulted_vars =
    "SCC_TIME_RANGE" ∷ "SCC_INVENTORY_POLL_INTERVAL_SECONDS" ∷ "SCC_LICENSE_POLL_INTERVAL_SECONDS"
    ∷ "SCC_CERTIFICATE_POLL_INTERVAL_SECONDS" ∷ []

abbrev pub warning_unless_unset : BackendType → String → Option String → List ConfigWarning
warning_unless_unset backend_type name none = []
warning_unless_unset backend_type name (some value) =
    record { severity = warn; message = no_effect name backend_type } ∷ []

-- One loop of `reportCrossBackendVars`.
unfoldable pub wrong_block :
    Env → BackendType → (defaulted names : List String) → List ConfigWarning
wrong_block env backend_type defaulted [] = []
wrong_block env backend_type defaulted (name ∷ names) =
    let rest = wrong_block env backend_type defaulted names in
    if includes defaulted name
    then rest
    else warning_unless_unset backend_type name (non_empty (env name)) ++ rest

unfoldable pub report_cross_backend_vars : Env → Option BackendType → List ConfigWarning
report_cross_backend_vars env none = []
report_cross_backend_vars env (some scc) = wrong_block env scc fmc_only_defaulted_vars fmc_only_vars
report_cross_backend_vars env (some fmc) = wrong_block env fmc scc_only_defaulted_vars scc_only_vars

-- The parts of a `URL` that are read.
pub record Url : Type 0 where
  pub protocol : String
  pub href : String
  pub hostname : String

abbrev pub is_label_char : ℕ → Bool
is_label_char c = (leb b'a' c && leb c b'z') || is_digit c || c == b'-'

-- The rest of a text behind a prefix.
unfoldable pub after_prefix : (prefix text : String) → Option String
after_prefix String.[] s = some s
after_prefix (String.◌∷◌ p ps) String.[] = none
after_prefix (String.◌∷◌ p ps) (String.◌∷◌ c s) =
    let rest = after_prefix ps s in if code p == code c then rest else none

-- The test of /^[a-z0-9-]*\.cdo\.cisco\.com$/; a label ends at its first dot.
unfoldable pub label_then_domain : String → Bool
label_then_domain String.[] = false
label_then_domain (String.◌∷◌ c s) =
    let rest = label_then_domain s in
    if is_label_char (code c) then rest else str_eq (String.◌∷◌ c s) ".cdo.cisco.com"

abbrev pub starts_with_label : String → Bool
starts_with_label String.[] = false
starts_with_label (String.◌∷◌ c s) = is_label_char (code c) && label_then_domain s

abbrev pub matches_region : Option String → Bool
matches_region none = false
matches_region (some rest) = starts_with_label rest

-- LEGACY_SCC_HOSTNAME_PATTERN, the test of /^edge\.[a-z0-9-]+\.cdo\.cisco\.com$/i.
unfoldable pub is_legacy_scc_hostname : String → Bool
is_legacy_scc_hostname hostname =
    matches_region (after_prefix "edge." (lowercase_enum_label hostname))

-- A validated backend, with what its validator pushes to `errors` and to `warnings`.
pub record CheckedBackend (A : Type 0) : Type 0 where
  pub value : A
  pub errors : List Problem
  pub warnings : List ConfigWarning

-- The seconds that a timer can wait.
abbrev pub timer_range : Option IntRange
timer_range = some (record { min = some 1; max = some max_timer_seconds })

abbrev pub concurrency_range : Option IntRange
concurrency_range = some (record { min = some 1; max = some 10 })

abbrev pub missing : String → Option String → List Problem
missing name none = required_unset name ∷ []
missing name (some value) = []

unfoldable pub check_url : Url → (raw : String) → CheckedBackend (Option String)
check_url parsed raw =
    let warnings =
      if is_legacy_scc_hostname parsed.hostname
      then record { severity = warn; message = legacy_hostname parsed.hostname } ∷ []
      else [] in
    if not (str_eq parsed.protocol "https:")
    then record { value = none; errors = not_https raw ∷ []; warnings = warnings }
    else record { value = some parsed.href; errors = []; warnings = warnings }

-- `baseUrlNormalized`, which is set just where `baseUrlOk` is.
unfoldable pub validate_base_url :
    (parse_url : String → Option Url) → Option String → CheckedBackend (Option String)
validate_base_url parse_url none = record {
  value = none;
  errors = required_unset "SCC_BASE_URL" ∷ [];
  warnings = [];
}
validate_base_url parse_url (some raw) =
    maybe (record { value = none; errors = not_a_url raw ∷ []; warnings = [] })
      (λ parsed. check_url parsed raw) (parse_url raw)

unfoldable pub scc_config :
    (base_url api_token fmc_uid : Option String)
    → (time_range : String) → (inventory license certificate : ℕ) → Option BackendConfig
scc_config (some base_url) (some api_token) (some fmc_uid) time_range inventory license
      certificate =
    some (
      scc_backend (record {
        base_url = base_url;
        api_token = record { reveal = api_token };
        fmc_uid = fmc_uid;
        time_range = time_range;
        inventory_poll_interval_seconds = inventory;
        license_poll_interval_seconds = license;
        certificate_poll_interval_seconds = certificate;
      }))
scc_config _ _ _ time_range inventory license certificate = none

unfoldable pub validate_scc_backend :
    (parse_url : String → Option Url) → Env → CheckedBackend (Option BackendConfig)
validate_scc_backend parse_url env =
    let time_range = validate_time_range env "SCC_TIME_RANGE" in
    let inventory =
      validate_positive_int env "SCC_INVENTORY_POLL_INTERVAL_SECONDS" 300 timer_range in
    let license = validate_positive_int env "SCC_LICENSE_POLL_INTERVAL_SECONDS" 3600 timer_range in
    let certificate =
      validate_positive_int env "SCC_CERTIFICATE_POLL_INTERVAL_SECONDS" 3600 timer_range in
    let base_url = validate_base_url parse_url (non_empty (env "SCC_BASE_URL")) in
    let api_token = non_empty (env "SCC_API_TOKEN") in
    let fmc_uid = non_empty (env "SCC_FMC_UID") in
    record {
      value =
          scc_config base_url.value api_token fmc_uid time_range.value inventory.value license.value
            certificate.value;
      errors = flatten (
          time_range.errors
          ∷ inventory.errors
          ∷ license.errors
          ∷ certificate.errors
          ∷ base_url.errors
          ∷ missing "SCC_API_TOKEN" api_token
          ∷ missing "SCC_FMC_UID" fmc_uid
          ∷ []);
      warnings = base_url.warnings;
    }

abbrev pub is_present : Option String → Bool
is_present none = false
is_present (some value) = true

-- What the insecure mode pushes to `errors`, and to `warnings`.
unfoldable pub insecure_errors : (insecure has_bundle : Bool) → List Problem
insecure_errors insecure has_bundle =
    if insecure && has_bundle then insecure_with_ca_bundle ∷ [] else []

unfoldable pub insecure_warnings : (insecure has_bundle : Bool) → List ConfigWarning
insecure_warnings insecure has_bundle =
    if insecure && has_bundle
    then []
    else if insecure
    then record { severity = error; message = tls_verification_disabled } ∷ []
    else []

-- The fields whose variables are required, if all three are set.
unfoldable pub with_credentials :
    (host username password : Option String)
    → ((host username password : String) → FmcBackendConfig)
    → Option BackendConfig
with_credentials (some host) (some username) (some password) config =
    some (fmc_backend (config host username password))
with_credentials _ _ _ config = none

unfoldable pub validate_fmc_backend :
    (file_at : String → FileAccess) → Env → CheckedBackend (Option BackendConfig)
validate_fmc_backend file_at env =
    let time_range = validate_time_range env "FMC_TIME_RANGE" in
    let concurrent = validate_positive_int env "FMC_MAX_CONCURRENT_REQUESTS" 5 concurrency_range in
    let discovery = validate_positive_int env "FMC_DISCOVERY_INTERVAL_SECONDS" 900 timer_range in
    let license = validate_positive_int env "FMC_LICENSE_POLL_INTERVAL_SECONDS" 3600 timer_range in
    let certificate =
      validate_positive_int env "FMC_CERTIFICATE_POLL_INTERVAL_SECONDS" 3600 timer_range in
    let families = validate_metric_families env in
    let host = non_empty (env "FMC_HOST") in
    let username = non_empty (env "FMC_USERNAME") in
    let password = non_empty (env "FMC_PASSWORD") in
    let bundle = non_empty (env "FMC_CA_BUNDLE_PATH") in
    let insecure = validate_boolean env "FMC_TLS_INSECURE_SKIP_VERIFY" false in
    record {
      value = with_credentials host username password (λ host username password. record {
        host = host;
        username = username;
        password = record { reveal = password };
        domain_uuid = non_empty (env "FMC_DOMAIN_UUID");
        ca_bundle_path = bundle;
        tls_insecure_skip_verify = insecure.value;
        max_concurrent_requests = concurrent.value;
        discovery_interval_seconds = discovery.value;
        metric_families = families.value;
        time_range = time_range.value;
        license_poll_interval_seconds = license.value;
        certificate_poll_interval_seconds = certificate.value;
      });
      errors = flatten (
          time_range.errors
          ∷ concurrent.errors
          ∷ discovery.errors
          ∷ license.errors
          ∷ certificate.errors
          ∷ families.errors
          ∷ missing "FMC_HOST" host
          ∷ missing "FMC_USERNAME" username
          ∷ missing "FMC_PASSWORD" password
          ∷ check_optional_path file_at bundle "FMC_CA_BUNDLE_PATH"
          ∷ insecure.errors
          ∷ insecure_errors insecure.value (is_present bundle)
          ∷ []);
      warnings = insecure_warnings insecure.value (is_present bundle);
    }
