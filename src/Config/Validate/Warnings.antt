-- ===== src/Config/Validate/Warnings.antt =====
-- src/config/validate.ts, `validate`: the warning of the insecure mode.
use ftd_metrics_exporter.Prelude.{
  ℕ, ◌++◌, ◌≡◌, refl, sym, ap, ◌∙◌, subst, String, Bool, true, false, List, [], ◌∷◌, Option, none,
  some, flatten_nil, arith,
}
use ftd_metrics_exporter.Config.{
  Env, BackendConfig, scc_backend, fmc_backend, FmcBackendConfig, AppConfig, BackendType, scc, fmc,
  error, tls_verification_disabled, ConfigWarning,
}
use ftd_metrics_exporter.Config.Values.{
  non_empty, FileAccess, validate_backend_type, validate_boolean,
}
use ftd_metrics_exporter.Config.Values.Laws.{IfPresent}
use ftd_metrics_exporter.Config.Backend.{
  Url, with_credentials, insecure_errors, insecure_warnings, is_present, validate_fmc_backend,
  report_cross_backend_vars,
}
use ftd_metrics_exporter.Config.Validate.{
  accepted, validate_backend, all_errors, app_config, validate,
}
use ftd_metrics_exporter.Config.Validate.Laws.{validate-accepted, validate_backend-IsOfKind}

abbrev pub loud_warning : ConfigWarning
loud_warning = record { severity = error; message = tls_verification_disabled }

abbrev insecure_of : BackendConfig → Bool
insecure_of (scc_backend c) = false
insecure_of (fmc_backend c) = c.tls_insecure_skip_verify

with_credentials-insecure :
    (h u p : Option String) (config : (host username password : String) → FmcBackendConfig)
    (insecure : Bool)
    → ((host username password : String)
        → (config host username password).tls_insecure_skip_verify ≡ insecure)
    → IfPresent (λ b. insecure_of b ≡ insecure) (with_credentials h u p config)
unfolding with_credentials
with_credentials-insecure (some h) (some u) (some p) config insecure e = e h u p
with_credentials-insecure none u p config insecure e = tt
with_credentials-insecure (some h) none p config insecure e = tt
with_credentials-insecure (some h) (some u) none config insecure e = tt

insecure_warnings-loud :
    (insecure has_bundle : Bool)
    → insecure_errors insecure has_bundle ≡ []
    → insecure ≡ true
    → insecure_warnings insecure has_bundle ≡ loud_warning ∷ []
unfolding insecure_errors insecure_warnings
insecure_warnings-loud true true h e = ground arith
insecure_warnings-loud true false h e = refl
insecure_warnings-loud false b h e = ground arith

validate_fmc_backend-loud :
    (file_at : String → FileAccess) (env : Env) (c : FmcBackendConfig)
    → (validate_fmc_backend file_at env).errors ≡ []
    → (validate_fmc_backend file_at env).value ≡ some (fmc_backend c)
    → c.tls_insecure_skip_verify ≡ true
    → (validate_fmc_backend file_at env).warnings ≡ loud_warning ∷ []
unfolding validate_fmc_backend
validate_fmc_backend-loud file_at env c h v i =
    let parts = flatten_nil (_ ∷ _ ∷ _ ∷ _ ∷ _ ∷ _ ∷ _ ∷ _ ∷ _ ∷ _ ∷ _ ∷ _ ∷ []) h in
    insecure_warnings-loud (validate_boolean env "FMC_TLS_INSECURE_SKIP_VERIFY" false).value
      (is_present (non_empty (env "FMC_CA_BUNDLE_PATH"))) parts.1.1.1.1.1.1.1.1.1.1.1.0
      (sym (
          subst
            (IfPresent (λ b.
              insecure_of b ≡ (validate_boolean env "FMC_TLS_INSECURE_SKIP_VERIFY" false).value))
            v (with_credentials-insecure _ _ _ _ _ (λ host username password. refl)))
        ∙ i)

scc_is_not_fmc : (n m : ℕ) → n ≡ m → n ≡ 30 → m ≡ 1 → ⊥
scc_is_not_fmc n m h hn hm = omega arith

validate_backend-loud :
    (parse_url : String → Option Url) (file_at : String → FileAccess) (env : Env)
    (backend_type : Option BackendType) (c : FmcBackendConfig)
    → (validate_backend parse_url file_at env backend_type).errors ≡ []
    → (validate_backend parse_url file_at env backend_type).value ≡ some (fmc_backend c)
    → c.tls_insecure_skip_verify ≡ true
    → (validate_backend parse_url file_at env backend_type).warnings ≡ loud_warning ∷ []
unfolding validate_backend
validate_backend-loud parse_url file_at env none c h v i = ground arith
validate_backend-loud parse_url file_at env (some scc) c h v i =
    let kind = subst (IfPresent _) v (validate_backend-IsOfKind parse_url file_at env (some scc)) in
    elim (scc_is_not_fmc _ _ kind refl refl) [ ]
validate_backend-loud parse_url file_at env (some fmc) c h v i =
    validate_fmc_backend-loud file_at env c h v i

-- An accepted configuration of the FMC backend with TLS verification disabled has the loud warning, of severity `error`, as the last of its warnings.
pub validate-loud :
    (parse_url : String → Option Url) (file_at : String → FileAccess) (env : Env)
    (config : AppConfig) (warnings : List ConfigWarning) (c : FmcBackendConfig)
    → validate parse_url file_at env ≡ accepted config warnings
    → config.backend ≡ fmc_backend c
    → c.tls_insecure_skip_verify ≡ true
    → (before : List ConfigWarning) × (warnings ≡ before ++ (loud_warning ∷ []))
unfolding all_errors app_config
validate-loud parse_url file_at env config warnings c h b i =
    let (backend, v, e, errors, w) = validate-accepted parse_url file_at env config warnings h in
    let parts = flatten_nil (_ ∷ _ ∷ _ ∷ _ ∷ _ ∷ _ ∷ _ ∷ _ ∷ []) errors in
    let is_fmc = ap (λ config. config.backend) e ∙ b in
    (
      _,
      sym w
          ∙ ap (λ ws. report_cross_backend_vars env (validate_backend_type env).value ++ ws)
              (validate_backend-loud parse_url file_at env _ c parts.1.1.1.1.1.1.0
                (v ∙ ap some is_fmc) i),
    )
