-- ===== src/Config/Backend/FmcValid.antt =====
-- src/config/validate.ts, `validateFmcBackend`: what it returns when it pushes no error.
use ftd_metrics_exporter.Prelude.{
  ◌≡◌, String, Bool, false, ◌&&◌, [], ◌∷◌, Option, none, some, flatten_nil, arith,
}
use ftd_metrics_exporter.Config.{Env, FmcBackendConfig}
use ftd_metrics_exporter.Config.Values.{non_empty, FileAccess, validate_boolean}
use ftd_metrics_exporter.Config.Values.Laws.{
  IfPresent, validate_positive_int-IsBetween, check_optional_path-IsReadable,
}
use ftd_metrics_exporter.Config.Families.Laws.{validate_metric_families-IsPolled}
use ftd_metrics_exporter.Config.Backend.{
  Url, is_present, insecure_errors, with_credentials, validate_fmc_backend,
}
use ftd_metrics_exporter.Config.Backend.Laws.{
  IsFilled, IsValidFmc, IsValidBackend, non_empty-IsFilled, timer, range_of,
}

not_insecure_with_bundle :
    (insecure has_bundle : Bool)
    → insecure_errors insecure has_bundle ≡ []
    → (insecure && has_bundle) ≡ false
unfolding insecure_errors
not_insecure_with_bundle insecure has_bundle h = ground arith

with_credentials-IsValid :
    (parse_url : String → Option Url) (file_at : String → FileAccess) (env : Env)
    (h u p : Option String) (config : (host username password : String) → FmcBackendConfig)
    → IfPresent (IsFilled env "FMC_HOST") h
    → IfPresent (IsFilled env "FMC_USERNAME") u
    → IfPresent (IsFilled env "FMC_PASSWORD") p
    → ((host username password : String)
        → IsFilled env "FMC_HOST" host
        → IsFilled env "FMC_USERNAME" username
        → IsFilled env "FMC_PASSWORD" password
        → IsValidFmc file_at env (config host username password))
    → IfPresent (IsValidBackend parse_url file_at env) (with_credentials h u p config)
unfolding with_credentials
with_credentials-IsValid parse_url file_at env (some h) (some u) (some p) config hh hu hp valid =
    valid h u p hh hu hp
with_credentials-IsValid parse_url file_at env none u p config hh hu hp valid = tt
with_credentials-IsValid parse_url file_at env (some h) none p config hh hu hp valid = tt
with_credentials-IsValid parse_url file_at env (some h) (some u) none config hh hu hp valid = tt

pub validate_fmc_backend-IsValid :
    (parse_url : String → Option Url) (file_at : String → FileAccess) (env : Env)
    → (validate_fmc_backend file_at env).errors ≡ []
    → IfPresent (IsValidBackend parse_url file_at env) (validate_fmc_backend file_at env).value
unfolding validate_fmc_backend
validate_fmc_backend-IsValid parse_url file_at env e =
    let parts = flatten_nil (_ ∷ _ ∷ _ ∷ _ ∷ _ ∷ _ ∷ _ ∷ _ ∷ _ ∷ _ ∷ _ ∷ _ ∷ []) e in
    with_credentials-IsValid parse_url file_at env _ _ _ _ (non_empty-IsFilled env "FMC_HOST")
      (non_empty-IsFilled env "FMC_USERNAME") (non_empty-IsFilled env "FMC_PASSWORD")
      (λ host username password hh hu hp. record {
        host_set = hh;
        username_set = hu;
        password_set = hp;
        bundle_readable =
            check_optional_path-IsReadable file_at (non_empty (env "FMC_CA_BUNDLE_PATH"))
              "FMC_CA_BUNDLE_PATH" parts.1.1.1.1.1.1.1.1.1.0;
        not_both =
            not_insecure_with_bundle
              (validate_boolean env "FMC_TLS_INSECURE_SKIP_VERIFY" false).value
              (is_present (non_empty (env "FMC_CA_BUNDLE_PATH"))) parts.1.1.1.1.1.1.1.1.1.1.1.0;
        concurrency =
            validate_positive_int-IsBetween env "FMC_MAX_CONCURRENT_REQUESTS" 5 1 10
              (omega arith, omega arith);
        discovery_timer = timer env "FMC_DISCOVERY_INTERVAL_SECONDS" 900 (omega arith, omega arith);
        families_known = (validate_metric_families-IsPolled env).0;
        families_nonempty = (validate_metric_families-IsPolled env).1 parts.1.1.1.1.1.0;
        range_known = range_of env "FMC_TIME_RANGE";
        license_timer =
            timer env "FMC_LICENSE_POLL_INTERVAL_SECONDS" 3600 (omega arith, omega arith);
        certificate_timer =
            timer env "FMC_CERTIFICATE_POLL_INTERVAL_SECONDS" 3600 (omega arith, omega arith);
      })
