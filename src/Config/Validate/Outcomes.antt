-- ===== src/Config/Validate/Outcomes.antt =====
-- src/config/validate.ts, `validate`: a configuration is refused only with a reason, and what the
-- operator asked for is what an accepted configuration holds.
use ftd_metrics_exporter.Prelude.{
  ℕ, ◌≡◌, ◌≢◌, refl, String, not, List, [], ◌∷◌, Option, none, some, flatten_nil, append_nil,
  if_cases, str_eq, arith,
}
use ftd_metrics_exporter.Config.{
  Env, BackendConfig, AppConfig, BackendType, scc, fmc, FmcBackendConfig, Problem, ConfigWarning,
  Checked,
}
use ftd_metrics_exporter.Config.Values.{
  non_empty, backend_type_of, validate_backend_type, FileAccess,
}
use ftd_metrics_exporter.Config.Values.Laws.{maybe_cases}
use ftd_metrics_exporter.Config.Backend.{
  Url, CheckedBackend, check_url, validate_base_url, missing, scc_config, with_credentials,
  validate_scc_backend, validate_fmc_backend,
}
use ftd_metrics_exporter.Config.Validate.{rejected, validate_backend, all_errors, outcome, validate}

abbrev IsSome : {A : Type 0} → Option A → Type 0
IsSome none = ⊥
IsSome (some a) = Unit

missing-IsSome : (name : String) (o : Option String) → missing name o ≡ [] → IsSome o
missing-IsSome name none h = ground arith
missing-IsSome name (some value) h = tt

-- A value, or else an error.
abbrev IsExplained : CheckedBackend (Option String) → Type 0
IsExplained c = c.errors ≡ [] → IsSome c.value

check_url-IsExplained : (url : Url) (raw : String) → IsExplained (check_url url raw)
unfolding check_url
check_url-IsExplained url raw =
    if_cases IsExplained (not (str_eq url.protocol "https:"))
      (record { value = none; errors = _ ∷ []; warnings = _ })
      (record { value = some url.href; errors = []; warnings = _ }) (λ b h. ground arith)
      (λ b h. tt)

validate_base_url-IsExplained :
    (parse_url : String → Option Url) (o : Option String)
    → IsExplained (validate_base_url parse_url o)
unfolding validate_base_url
validate_base_url-IsExplained parse_url none = λ h. ground arith
validate_base_url-IsExplained parse_url (some raw) =
    maybe_cases IsExplained (record { value = none; errors = _ ∷ []; warnings = [] })
      (λ url. check_url url raw) (parse_url raw) (λ h. ground arith)
      (λ url e. check_url-IsExplained url raw)

scc_config-IsSome :
    (base token uid : Option String) (range : String) (i l c : ℕ)
    → IsSome base
    → IsSome token
    → IsSome uid
    → IsSome (scc_config base token uid range i l c)
unfolding scc_config
scc_config-IsSome (some base) (some token) (some uid) range i l c hb ht hu = tt
scc_config-IsSome none token uid range i l c hb ht hu = elim hb [ ]
scc_config-IsSome (some base) none uid range i l c hb ht hu = elim ht [ ]
scc_config-IsSome (some base) (some token) none range i l c hb ht hu = elim hu [ ]

with_credentials-IsSome :
    (h u p : Option String) (config : (host username password : String) → FmcBackendConfig)
    → IsSome h
    → IsSome u
    → IsSome p
    → IsSome (with_credentials h u p config)
unfolding with_credentials
with_credentials-IsSome (some h) (some u) (some p) config hh hu hp = tt
with_credentials-IsSome none u p config hh hu hp = elim hh [ ]
with_credentials-IsSome (some h) none p config hh hu hp = elim hu [ ]
with_credentials-IsSome (some h) (some u) none config hh hu hp = elim hp [ ]

module _ (parse_url : String → Option Url) (file_at : String → FileAccess) (env : Env) where
  validate_backend-IsSome :
      (backend_type : Option BackendType)
      → IsSome backend_type
      → (validate_backend parse_url file_at env backend_type).errors ≡ []
      → IsSome (validate_backend parse_url file_at env backend_type).value
  unfolding validate_backend validate_scc_backend validate_fmc_backend
  validate_backend-IsSome none s h = elim s [ ]
  validate_backend-IsSome (some scc) s h =
      let parts = flatten_nil (_ ∷ _ ∷ _ ∷ _ ∷ _ ∷ _ ∷ _ ∷ []) h in
      scc_config-IsSome _ _ _ _ _ _ _
        (validate_base_url-IsExplained parse_url (non_empty (env "SCC_BASE_URL")) parts.1.1.1.1.0)
        (missing-IsSome "SCC_API_TOKEN" _ parts.1.1.1.1.1.0)
        (missing-IsSome "SCC_FMC_UID" _ parts.1.1.1.1.1.1.0)
  validate_backend-IsSome (some fmc) s h =
      let parts = flatten_nil (_ ∷ _ ∷ _ ∷ _ ∷ _ ∷ _ ∷ _ ∷ _ ∷ _ ∷ _ ∷ _ ∷ _ ∷ []) h in
      with_credentials-IsSome _ _ _ _ (missing-IsSome "FMC_HOST" _ parts.1.1.1.1.1.1.0)
        (missing-IsSome "FMC_USERNAME" _ parts.1.1.1.1.1.1.1.0)
        (missing-IsSome "FMC_PASSWORD" _ parts.1.1.1.1.1.1.1.1.0)

  validate_backend_type-IsSome :
      (validate_backend_type env).errors ≡ [] → IsSome (validate_backend_type env).value
  unfolding validate_backend_type
  validate_backend_type-IsSome = go (non_empty (env "BACKEND_TYPE"))
    where
      go : (o : Option String) → (backend_type_of o).errors ≡ [] → IsSome (backend_type_of o).value
      go none = λ h. ground arith
      go (some raw) =
          if_cases (λ (c : Checked (Option BackendType)). c.errors ≡ [] → IsSome c.value)
            (str_eq raw "scc") _ _ (λ b h. tt)
            (λ b.
              if_cases (λ (c : Checked (Option BackendType)). c.errors ≡ [] → IsSome c.value)
                (str_eq raw "fmc") _ _ (λ b h. tt) (λ b h. ground arith))

  all_errors-nil :
      (backend_type : Option BackendType)
      → all_errors parse_url file_at env backend_type ≡ []
      → (validate_backend parse_url file_at env backend_type).errors ≡ []
  unfolding all_errors
  all_errors-nil backend_type h = (flatten_nil (_ ∷ _ ∷ _ ∷ _ ∷ _ ∷ _ ∷ _ ∷ _ ∷ []) h).1.1.1.1.1.1.0

outcome-rejected :
    (errors : List Problem) (b : Option BackendConfig) (f : BackendConfig → AppConfig)
    (ws : List ConfigWarning) (es : List Problem) (ws' : List ConfigWarning)
    → (errors ≡ [] → IsSome b)
    → outcome errors b f ws ≡ rejected es ws'
    → es ≢ []
outcome-rejected [] (some b) f ws es ws' s h = ground arith
outcome-rejected [] none f ws es ws' s h = elim (s refl) [ ]
outcome-rejected (e ∷ errors) b f ws es ws' s h = ground arith

-- A refused configuration comes with at least one error.
pub validate-rejected :
    (parse_url : String → Option Url) (file_at : String → FileAccess) (env : Env)
    (errors : List Problem) (warnings : List ConfigWarning)
    → validate parse_url file_at env ≡ rejected errors warnings
    → errors ≢ []
unfolding validate
validate-rejected parse_url file_at env errors warnings h =
    outcome-rejected _ _ _ _ errors warnings
      (λ e.
        let parts = append_nil (validate_backend_type env).errors _ e in
        validate_backend-IsSome parse_url file_at env (validate_backend_type env).value
          (validate_backend_type-IsSome parse_url file_at env parts.0)
          (all_errors-nil parse_url file_at env _ parts.1))
      h
