-- ===== src/Config/Validate/Wishes.antt =====
-- src/config/validate.ts, `validate`: what the operator asked for is what an accepted configuration holds.
use ftd_metrics_exporter.Prelude.{
  ℕ, ◌≤◌, ◌≡◌, refl, sym, ap, ◌∙◌, String, false, List, [], ◌∷◌, Option, none, some, flatten_nil,
  append_nil, arith,
}
use ftd_metrics_exporter.Prelude.Int.{ℤ, pos}
use ftd_metrics_exporter.Prelude.Text.{decimal, is_empty, trim}
use ftd_metrics_exporter.Config.{
  Env, MetricsTlsConfig, AppConfig, BackendType, scc, fmc, ConfigWarning, Checked,
  tls_min_version_values,
}
use ftd_metrics_exporter.Config.Values.{
  non_empty, max_timer_seconds, maybe, check_range, check_integer, check_poll_interval,
  validate_positive_int, validate_poll_interval, validate_enum, FileAccess, check_readable_path,
  max_safe_integer,
}
use ftd_metrics_exporter.Config.Values.Laws.{IsBetween, least_poll_interval}
use ftd_metrics_exporter.Config.Values.Integers.{parse_integer-decimal, non_empty-decimal}
use ftd_metrics_exporter.Config.Backend.{Url}
use ftd_metrics_exporter.Config.Validate.{
  tls_config, validate_metrics_tls, accepted, all_errors, app_config, validate,
}
use ftd_metrics_exporter.Config.Validate.Laws.{validate-accepted}

-- What a set variable is read as when it holds the decimal digits of a safe integer.
check_integer-decimal :
    (name : String) (default n : ℕ) (check : ℤ → Checked ℕ) (o : Option String)
    (fallback : Checked ℕ)
    → n ≤ max_safe_integer
    → o ≡ some (decimal n)
    → maybe fallback (check_integer name default check) (non_empty o) ≡ check (pos n)
check_integer-decimal name default n check o fallback h e =
    ap (λ v. maybe fallback (check_integer name default check) (non_empty v)) e
    ∙ ap (maybe fallback (check_integer name default check)) (non_empty-decimal n)
    ∙ ap (maybe _ check) (parse_integer-decimal n h)

check_range_inside :
    (name : String) (default lo hi n : ℕ)
    → IsBetween lo hi n
    → check_range name default (some (record { min = some lo; max = some hi })) (pos n)
      ≡ record { value = n; errors = [] }
unfolding check_range
check_range_inside name default lo hi n (l, h) = ground arith

-- A variable that holds the decimal digits of a number in range is read as this number, without an error.
pub validate_positive_int-decimal :
    (env : Env) (name : String) (default lo hi n : ℕ)
    → hi ≤ max_safe_integer
    → IsBetween lo hi n
    → env name ≡ some (decimal n)
    → validate_positive_int env name default (some (record { min = some lo; max = some hi }))
      ≡ record { value = n; errors = [] }
unfolding validate_positive_int
validate_positive_int-decimal env name default lo hi n s (l, h) e =
    check_integer-decimal name default n _ (env name) _ (omega arith) e
    ∙ check_range_inside name default lo hi n (l, h)

check_poll_interval_inside :
    (backend_type : Option BackendType) (n : ℕ)
    → IsBetween (least_poll_interval backend_type) max_timer_seconds n
    → check_poll_interval backend_type (pos n) ≡ record { value = n; errors = [] }
unfolding check_poll_interval
check_poll_interval_inside none n (l, h) = ground arith
check_poll_interval_inside (some scc) n (l, h) = ground arith
check_poll_interval_inside (some fmc) n (l, h) = ground arith

-- A poll interval that is written in decimal digits and in the backend's range is read as written, without an error.
pub validate_poll_interval-decimal :
    (env : Env) (backend_type : Option BackendType) (n : ℕ)
    → IsBetween (least_poll_interval backend_type) max_timer_seconds n
    → env "POLL_INTERVAL_SECONDS" ≡ some (decimal n)
    → validate_poll_interval env backend_type ≡ record { value = n; errors = [] }
unfolding validate_poll_interval
validate_poll_interval-decimal env backend_type n (l, h) e =
    check_integer-decimal "POLL_INTERVAL_SECONDS" 60 n _ (env "POLL_INTERVAL_SECONDS") _
      (omega arith) e
    ∙ check_poll_interval_inside backend_type n (l, h)

non_empty_set :
    (o : Option String) (path : String)
    → o ≡ some path
    → is_empty (trim path) ≡ false
    → non_empty o ≡ some path
unfolding non_empty
non_empty_set o path e h = ground arith

tls_config-client_ca :
    (file_at : String → FileAccess) (cert key : Option String) (path version : String)
    → (tls_config file_at cert key (some path) version).errors ≡ []
    → (tls : MetricsTlsConfig) × ((tls_config file_at cert key (some path) version).value
        ≡ some tls)
      × (tls.client_ca_path ≡ some path)
unfolding tls_config
tls_config-client_ca file_at none none path version h =
    let parts = append_nil (check_readable_path file_at path "METRICS_TLS_CLIENT_CA_PATH") _ h in
    ground (arith, parts.1)
tls_config-client_ca file_at (some cert) none path version h = ground arith
tls_config-client_ca file_at none (some key) path version h = ground arith
tls_config-client_ca file_at (some cert) (some key) path version h = (
  record { cert_path = cert; key_path = key; min_version = version; client_ca_path = some path },
  refl,
  refl,
)

validate_metrics_tls-client_ca :
    (file_at : String → FileAccess) (env : Env) (path : String)
    → non_empty (env "METRICS_TLS_CLIENT_CA_PATH") ≡ some path
    → (validate_metrics_tls file_at env).errors ≡ []
    → (tls : MetricsTlsConfig) × ((validate_metrics_tls file_at env).value ≡ some tls)
      × (tls.client_ca_path ≡ some path)
unfolding validate_metrics_tls
validate_metrics_tls-client_ca file_at env path e h =
    go (non_empty (env "METRICS_TLS_CLIENT_CA_PATH")) e
      (append_nil
        (validate_enum env "METRICS_TLS_MIN_VERSION" tls_min_version_values "TLSv1.2").errors _ h).1
  where
    go :
        (ca : Option String)
        → ca ≡ some path
        → (tls_config file_at
            (non_empty (env "METRICS_TLS_CERT_PATH"))
            (non_empty (env "METRICS_TLS_KEY_PATH"))
            ca
            (validate_enum env "METRICS_TLS_MIN_VERSION" tls_min_version_values
              "TLSv1.2").value).errors
          ≡ []
        → (tls : MetricsTlsConfig) × ((tls_config file_at
              (non_empty (env "METRICS_TLS_CERT_PATH"))
              (non_empty (env "METRICS_TLS_KEY_PATH"))
              ca
              (validate_enum env "METRICS_TLS_MIN_VERSION" tls_min_version_values
                "TLSv1.2").value).value
            ≡ some tls)
          × (tls.client_ca_path ≡ some path)
    go none e h = ground arith
    go (some p) e h =
        let (tls, t, c) = tls_config-client_ca file_at _ _ p _ h in (tls, t, c ∙ ground arith)

-- A client CA that is set is in force whenever the configuration is accepted: the endpoint then runs on TLS with this client CA.
pub validate-client_ca :
    (parse_url : String → Option Url) (file_at : String → FileAccess) (env : Env) (path : String)
    (config : AppConfig) (warnings : List ConfigWarning)
    → env "METRICS_TLS_CLIENT_CA_PATH" ≡ some path
    → is_empty (trim path) ≡ false
    → validate parse_url file_at env ≡ accepted config warnings
    → (tls : MetricsTlsConfig) × (config.metrics_tls ≡ some tls) × (tls.client_ca_path ≡ some path)
unfolding all_errors app_config
validate-client_ca parse_url file_at env path config warnings e b h =
    let (backend, v, c, errors, w) = validate-accepted parse_url file_at env config warnings h in
    let parts = flatten_nil (_ ∷ _ ∷ _ ∷ _ ∷ _ ∷ _ ∷ _ ∷ _ ∷ []) errors in
    let (tls, t, p) =
      validate_metrics_tls-client_ca file_at env path (non_empty_set _ path e b)
        parts.1.1.1.1.1.1.1.0 in
    (tls, ap (λ config. config.metrics_tls) (sym c) ∙ t, p)
