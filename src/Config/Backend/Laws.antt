-- ===== src/Config/Backend/Laws.antt =====
-- src/config/validate.ts: what the validators of a backend return.
use ftd_metrics_exporter.Prelude.{
  ℕ, ◌≡◌, refl, String, false, not, ◌&&◌, Option, none, some, str_eq, if_cases, arith, eq_iff,
}
use ftd_metrics_exporter.Prelude.Text.{is_empty, trim}
use ftd_metrics_exporter.Config.{
  Env, SccBackendConfig, FmcBackendConfig, BackendConfig, scc_backend, fmc_backend,
  time_range_values,
}
use ftd_metrics_exporter.Config.Values.{
  non_empty, max_timer_seconds, FileAccess, validate_positive_int, validate_time_range,
}
use ftd_metrics_exporter.Config.Values.Laws.{
  IsBetween, IsMember, IsReadable, validate_positive_int-IsBetween, validate_enum-IsMember,
  maybe_cases, IfPresent,
}
use ftd_metrics_exporter.Config.Families.{is_nil}
use ftd_metrics_exporter.Config.Families.Laws.{AreFamilies}
use ftd_metrics_exporter.Config.Backend.{
  Url, CheckedBackend, check_url, validate_base_url, scc_config, validate_scc_backend, timer_range,
  is_present,
}

-- Seconds that a timer can wait.
abbrev pub IsTimer : ℕ → Type 0
IsTimer n = IsBetween 1 max_timer_seconds n

-- The variable is set to this text, which is not blank.
abbrev pub IsFilled : Env → String → String → Type 0
IsFilled env name value = (env name ≡ some value) × (is_empty (trim value) ≡ false)

-- The text is what `new URL` makes of some text, an https address.
abbrev pub IsHttps : (String → Option Url) → String → Type 0
IsHttps parse_url href =
    (raw : String) × (url : Url) × (parse_url raw ≡ some url)
    × (url.protocol ≡ "https:")
    × (url.href ≡ href)

pub record IsValidScc (parse_url : String → Option Url) (env : Env) (c : SccBackendConfig)
    : Type 0 where
  pub base_url_https : IsHttps parse_url c.base_url
  pub token_set : IsFilled env "SCC_API_TOKEN" c.api_token.reveal
  pub uid_set : IsFilled env "SCC_FMC_UID" c.fmc_uid
  pub range_known : IsMember time_range_values c.time_range
  pub inventory_timer : IsTimer c.inventory_poll_interval_seconds
  pub license_timer : IsTimer c.license_poll_interval_seconds
  pub certificate_timer : IsTimer c.certificate_poll_interval_seconds

pub record IsValidFmc (file_at : String → FileAccess) (env : Env) (c : FmcBackendConfig)
    : Type 0 where
  pub host_set : IsFilled env "FMC_HOST" c.host
  pub username_set : IsFilled env "FMC_USERNAME" c.username
  pub password_set : IsFilled env "FMC_PASSWORD" c.password.reveal
  pub bundle_readable : IfPresent (IsReadable file_at) c.ca_bundle_path
  pub not_both : (c.tls_insecure_skip_verify && is_present c.ca_bundle_path) ≡ false
  pub concurrency : IsBetween 1 10 c.max_concurrent_requests
  pub discovery_timer : IsTimer c.discovery_interval_seconds
  pub families_known : AreFamilies c.metric_families
  pub families_nonempty : is_nil c.metric_families ≡ false
  pub range_known : IsMember time_range_values c.time_range
  pub license_timer : IsTimer c.license_poll_interval_seconds
  pub certificate_timer : IsTimer c.certificate_poll_interval_seconds

abbrev pub IsValidBackend :
    (String → Option Url) → (String → FileAccess) → Env → BackendConfig → Type 0
IsValidBackend parse_url file_at env (scc_backend c) = IsValidScc parse_url env c
IsValidBackend parse_url file_at env (fmc_backend c) = IsValidFmc file_at env c

pub non_empty-IsFilled :
    (env : Env) (name : String) → IfPresent (IsFilled env name) (non_empty (env name))
unfolding non_empty
non_empty-IsFilled env name = go (env name) refl
  where
    go : (o : Option String) → env name ≡ o → IfPresent (IsFilled env name) (non_empty o)
    go none e = tt
    go (some value) e =
        if_cases (IfPresent (IsFilled env name)) (is_empty (trim value)) none (some value) (λ h. tt)
          (λ h. (e, h))

check_url-IsHttps :
    (parse_url : String → Option Url) (raw : String) (url : Url)
    → parse_url raw ≡ some url
    → IfPresent (IsHttps parse_url) (check_url url raw).value
unfolding check_url
check_url-IsHttps parse_url raw url h =
    if_cases (λ (c : CheckedBackend (Option String)). IfPresent (IsHttps parse_url) c.value)
      (not (str_eq url.protocol "https:")) (record { value = none; errors = _; warnings = _ })
      (record { value = some url.href; errors = _; warnings = _ }) (λ e. tt)
      (λ e. (raw, url, h, ground (arith, eq_iff url.protocol "https:"), refl))

validate_base_url-IsHttps :
    (parse_url : String → Option Url) (o : Option String)
    → IfPresent (IsHttps parse_url) (validate_base_url parse_url o).value
unfolding validate_base_url
validate_base_url-IsHttps parse_url none = tt
validate_base_url-IsHttps parse_url (some raw) =
    maybe_cases (λ (c : CheckedBackend (Option String)). IfPresent (IsHttps parse_url) c.value) _
      (λ url. check_url url raw) (parse_url raw) tt (check_url-IsHttps parse_url raw)

scc_config-IsValid :
    (parse_url : String → Option Url) (env : Env) (base token uid : Option String) (range : String)
    (i l c : ℕ)
    → IfPresent (IsHttps parse_url) base
    → IfPresent (IsFilled env "SCC_API_TOKEN") token
    → IfPresent (IsFilled env "SCC_FMC_UID") uid
    → IsMember time_range_values range
    → IsTimer i
    → IsTimer l
    → IsTimer c
    → (file_at : String → FileAccess)
    → IfPresent (IsValidBackend parse_url file_at env) (scc_config base token uid range i l c)
unfolding scc_config
scc_config-IsValid parse_url env (some base) (some token) (some uid) range i l c hb ht hu hr hi hl
      hc file_at =
    record {
      base_url_https = hb;
      token_set = ht;
      uid_set = hu;
      range_known = hr;
      inventory_timer = hi;
      license_timer = hl;
      certificate_timer = hc;
    }
scc_config-IsValid parse_url env none token uid range i l c hb ht hu hr hi hl hc file_at = tt
scc_config-IsValid parse_url env (some base) none uid range i l c hb ht hu hr hi hl hc file_at = tt
scc_config-IsValid parse_url env (some base) (some token) none range i l c hb ht hu hr hi hl hc
      file_at =
    tt

pub timer :
    (env : Env) (name : String) (default : ℕ)
    → IsTimer default
    → IsTimer (validate_positive_int env name default timer_range).value
timer env name default h = validate_positive_int-IsBetween env name default 1 max_timer_seconds h

pub range_of :
    (env : Env) (name : String) → IsMember time_range_values (validate_time_range env name).value
unfolding validate_time_range
range_of env name = validate_enum-IsMember env name time_range_values "5m" refl

pub validate_scc_backend-IsValid :
    (parse_url : String → Option Url) (file_at : String → FileAccess) (env : Env)
    → IfPresent (IsValidBackend parse_url file_at env) (validate_scc_backend parse_url env).value
unfolding validate_scc_backend
validate_scc_backend-IsValid parse_url file_at env =
    scc_config-IsValid parse_url env _ _ _ _ _ _ _
      (validate_base_url-IsHttps parse_url (non_empty (env "SCC_BASE_URL")))
      (non_empty-IsFilled env "SCC_API_TOKEN") (non_empty-IsFilled env "SCC_FMC_UID")
      (range_of env "SCC_TIME_RANGE")
      (timer env "SCC_INVENTORY_POLL_INTERVAL_SECONDS" 300 (omega arith, omega arith))
      (timer env "SCC_LICENSE_POLL_INTERVAL_SECONDS" 3600 (omega arith, omega arith))
      (timer env "SCC_CERTIFICATE_POLL_INTERVAL_SECONDS" 3600 (omega arith, omega arith)) file_at
