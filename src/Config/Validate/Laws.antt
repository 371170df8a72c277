-- ===== src/Config/Validate/Laws.antt =====
-- src/config/validate.ts, `validate`: what an accepted configuration satisfies.
use ftd_metrics_exporter.Prelude.{
  ℕ, ◌++◌, ◌≡◌, refl, String, List, [], ◌∷◌, Option, none, some, flatten_nil, append_nil, subst,
  arith,
}
use ftd_metrics_exporter.Config.{
  Env, BackendConfig, scc_backend, fmc_backend, MetricsTlsConfig, AppConfig, BackendType, scc, fmc,
  FmcBackendConfig, Problem, ConfigWarning, log_level_values, log_format_values,
  tls_min_version_values,
}
use ftd_metrics_exporter.Config.Values.{
  max_timer_seconds, validate_backend_type, validate_poll_interval, validate_enum, FileAccess,
}
use ftd_metrics_exporter.Config.Values.Laws.{
  IsBetween, IsMember, IsReadable, IfPresent, least_poll_interval, validate_positive_int-IsBetween,
  validate_poll_interval-IsBetween, validate_enum-IsMember, check_readable_path-IsReadable,
  check_optional_path-IsReadable,
}
use ftd_metrics_exporter.Config.Backend.{
  Url, scc_config, with_credentials, validate_scc_backend, validate_fmc_backend,
  report_cross_backend_vars,
}
use ftd_metrics_exporter.Config.Backend.Laws.{
  IsTimer, IsValidBackend, timer, validate_scc_backend-IsValid,
}
use ftd_metrics_exporter.Config.Backend.FmcValid.{validate_fmc_backend-IsValid}
use ftd_metrics_exporter.Config.Validate.{
  tls_config, validate_metrics_tls, accepted, validate_backend, all_errors, app_config, outcome,
  validate,
}

pub outcome-accepted :
    (errors : List Problem) (b : Option BackendConfig) (f : BackendConfig → AppConfig)
    (ws : List ConfigWarning) (config : AppConfig) (ws' : List ConfigWarning)
    → outcome errors b f ws ≡ accepted config ws'
    → (errors ≡ [])
      × ((backend : BackendConfig) × (b ≡ some backend) × (f backend ≡ config) × (ws ≡ ws'))
outcome-accepted [] (some b) f ws config ws' h = (refl, (b, refl, ground arith, ground arith))
outcome-accepted [] none f ws config ws' h = ground arith
outcome-accepted (e ∷ es) b f ws config ws' h = ground arith

pub record IsValidTls (file_at : String → FileAccess) (tls : MetricsTlsConfig) : Type 0 where
  pub cert_readable : IsReadable file_at tls.cert_path
  pub key_readable : IsReadable file_at tls.key_path
  pub client_ca_readable : IfPresent (IsReadable file_at) tls.client_ca_path
  pub version_known : IsMember tls_min_version_values tls.min_version

-- The least poll interval that a backend may be given.
abbrev pub least_poll : BackendConfig → ℕ
least_poll (scc_backend c) = 30
least_poll (fmc_backend c) = 1

pub record IsValid (parse_url : String → Option Url) (file_at : String → FileAccess) (env : Env)
    (config : AppConfig) : Type 0 where
  pub backend_valid : IsValidBackend parse_url file_at env config.backend
  pub port_valid : IsBetween 1 65535 config.metrics_port
  pub poll_valid :
      IsBetween (least_poll config.backend) max_timer_seconds config.poll_interval_seconds
  pub level_known : IsMember log_level_values config.log_level
  pub format_known : IsMember log_format_values config.log_format
  pub timeout_timer : IsTimer config.request_timeout_seconds
  pub tls_valid : IfPresent (IsValidTls file_at) config.metrics_tls

tls_config-IsValidTls :
    (file_at : String → FileAccess) (cert key ca : Option String) (version : String)
    → IsMember tls_min_version_values version
    → (tls_config file_at cert key ca version).errors ≡ []
    → IfPresent (IsValidTls file_at) (tls_config file_at cert key ca version).value
unfolding tls_config
tls_config-IsValidTls file_at none none ca version hv h = tt
tls_config-IsValidTls file_at (some cert) none ca version hv h = tt
tls_config-IsValidTls file_at none (some key) ca version hv h = tt
tls_config-IsValidTls file_at (some cert) (some key) ca version hv h =
    let parts = flatten_nil (_ ∷ _ ∷ _ ∷ []) h in
    record {
      cert_readable = check_readable_path-IsReadable file_at cert "METRICS_TLS_CERT_PATH" parts.0;
      key_readable = check_readable_path-IsReadable file_at key "METRICS_TLS_KEY_PATH" parts.1.0;
      client_ca_readable =
          check_optional_path-IsReadable file_at ca "METRICS_TLS_CLIENT_CA_PATH" parts.1.1.0;
      version_known = hv;
    }

validate_metrics_tls-IsValidTls :
    (file_at : String → FileAccess) (env : Env)
    → (validate_metrics_tls file_at env).errors ≡ []
    → IfPresent (IsValidTls file_at) (validate_metrics_tls file_at env).value
unfolding validate_metrics_tls
validate_metrics_tls-IsValidTls file_at env h =
    tls_config-IsValidTls file_at _ _ _ _
      (validate_enum-IsMember env "METRICS_TLS_MIN_VERSION" tls_min_version_values "TLSv1.2" refl)
      (append_nil
        (validate_enum env "METRICS_TLS_MIN_VERSION" tls_min_version_values "TLSv1.2").errors _ h).1

-- The backend is of the kind that was asked for.
abbrev pub IsOfKind : Option BackendType → BackendConfig → Type 0
IsOfKind backend_type backend = least_poll_interval backend_type ≡ least_poll backend

scc_config-IsOfKind :
    (base token uid : Option String) (range : String) (i l c : ℕ)
    → IfPresent (IsOfKind (some scc)) (scc_config base token uid range i l c)
unfolding scc_config
scc_config-IsOfKind (some base) (some token) (some uid) range i l c = refl
scc_config-IsOfKind none token uid range i l c = tt
scc_config-IsOfKind (some base) none uid range i l c = tt
scc_config-IsOfKind (some base) (some token) none range i l c = tt

with_credentials-IsOfKind :
    (h u p : Option String) (config : (host username password : String) → FmcBackendConfig)
    → IfPresent (IsOfKind (some fmc)) (with_credentials h u p config)
unfolding with_credentials
with_credentials-IsOfKind (some h) (some u) (some p) config = refl
with_credentials-IsOfKind none u p config = tt
with_credentials-IsOfKind (some h) none p config = tt
with_credentials-IsOfKind (some h) (some u) none config = tt

module _ (parse_url : String → Option Url) (file_at : String → FileAccess) (env : Env) where
  pub validate_backend-IsOfKind :
      (backend_type : Option BackendType)
      → IfPresent
          (IsOfKind backend_type)
          (validate_backend parse_url file_at env backend_type).value
  unfolding validate_backend validate_scc_backend validate_fmc_backend
  validate_backend-IsOfKind none = tt
  validate_backend-IsOfKind (some scc) = scc_config-IsOfKind _ _ _ _ _ _ _
  validate_backend-IsOfKind (some fmc) = with_credentials-IsOfKind _ _ _ _

  validate_backend-IsValid :
      (backend_type : Option BackendType)
      → (validate_backend parse_url file_at env backend_type).errors ≡ []
      → IfPresent
          (IsValidBackend parse_url file_at env)
          (validate_backend parse_url file_at env backend_type).value
  unfolding validate_backend
  validate_backend-IsValid none h = tt
  validate_backend-IsValid (some scc) h = validate_scc_backend-IsValid parse_url file_at env
  validate_backend-IsValid (some fmc) h = validate_fmc_backend-IsValid parse_url file_at env h

  app_config-IsValid :
      (backend_type : Option BackendType) (backend : BackendConfig)
      → all_errors parse_url file_at env backend_type ≡ []
      → (validate_backend parse_url file_at env backend_type).value ≡ some backend
      → IsValid parse_url file_at env (app_config file_at env backend_type backend)
  unfolding all_errors app_config
  app_config-IsValid backend_type backend h e =
      let parts = flatten_nil (_ ∷ _ ∷ _ ∷ _ ∷ _ ∷ _ ∷ _ ∷ _ ∷ []) h in
      record {
        backend_valid =
            subst (IfPresent (IsValidBackend parse_url file_at env)) e
              (validate_backend-IsValid backend_type parts.1.1.1.1.1.1.0);
        port_valid =
            validate_positive_int-IsBetween env "METRICS_PORT" 10049 1 65535
              (omega arith, omega arith);
        poll_valid =
            subst
              (λ least.
                IsBetween least max_timer_seconds (validate_poll_interval env backend_type).value)
              (subst (IfPresent (IsOfKind backend_type)) e (validate_backend-IsOfKind backend_type))
              (validate_poll_interval-IsBetween env backend_type);
        level_known = validate_enum-IsMember env "LOG_LEVEL" log_level_values "info" refl;
        format_known = validate_enum-IsMember env "LOG_FORMAT" log_format_values "json" refl;
        timeout_timer = timer env "REQUEST_TIMEOUT_SECONDS" 30 (omega arith, omega arith);
        tls_valid = validate_metrics_tls-IsValidTls file_at env parts.1.1.1.1.1.1.1.0;
      }

  -- What `validate` accepts is made by `app_config` without an error.
  pub validate-accepted :
      (config : AppConfig) (warnings : List ConfigWarning)
      → validate parse_url file_at env ≡ accepted config warnings
      → (backend : BackendConfig) × ((validate_backend parse_url file_at env
            (validate_backend_type env).value).value
          ≡ some backend)
        × (app_config file_at env (validate_backend_type env).value backend ≡ config)
        × (all_errors parse_url file_at env (validate_backend_type env).value ≡ [])
        × (report_cross_backend_vars env (validate_backend_type env).value
              ++ (validate_backend parse_url file_at env (validate_backend_type env).value).warnings
            ≡ warnings)
  unfolding validate
  validate-accepted config warnings h =
      let (e, (backend, b, c, w)) = outcome-accepted _ _ _ _ config warnings h in
      (backend, b, c, (append_nil (validate_backend_type env).errors _ e).1, w)

  -- An accepted configuration is valid: numbers in their ranges, with at least 30 seconds between the
  -- polls of SCC, enumerated values among those declared, required values set and not blank, the base
  -- URL of SCC an https URL, files readable, and no CA bundle where TLS verification is disabled.
  pub validate-IsValid :
      (config : AppConfig) (warnings : List ConfigWarning)
      → validate parse_url file_at env ≡ accepted config warnings
      → IsValid parse_url file_at env config
  validate-IsValid config warnings h =
      let (backend, b, c, e, w) = validate-accepted config warnings h in
      subst (IsValid parse_url file_at env) c (app_config-IsValid _ backend e b)
