-- ===== src/Config/EnvFile/Laws.antt =====
-- src/config/load.ts: where the configuration at startup comes from.
use ftd_metrics_exporter.Prelude.{
  ◌≡◌, ◌≢◌, refl, sym, ap, ◌∙◌, String, Bool, true, false, List, [], ◌∷◌, Option, ◌⊎◌, inl, inr,
  arith,
}
use ftd_metrics_exporter.Config.{Env, AppConfig, ConfigWarning}
use ftd_metrics_exporter.Config.Values.{FileAccess}
use ftd_metrics_exporter.Config.Backend.{Url}
use ftd_metrics_exporter.Config.Validate.{ValidationResult, accepted, rejected, validate}
use ftd_metrics_exporter.Config.Validate.Laws.{IsValid, validate-IsValid}
use ftd_metrics_exporter.Config.EnvFile.{
  EnvFilePath, file, no_path, resolve_env_file_path, is_explicit, LoadOutcome, loads, fails,
  EnvLoaded, env, throws, config, after_failure, after_load, load_env_file, checked_result,
  from_env, load_from, load_config,
}

-- Without a flag the default file is loaded.
resolve_env_file_path-default :
    (argv : List String) → is_explicit argv ≡ false → resolve_env_file_path argv ≡ file ".env"
unfolding resolve_env_file_path is_explicit
resolve_env_file_path-default [] h = refl
resolve_env_file_path-default (arg ∷ rest) h = ground (arith, resolve_env_file_path-default rest)

module _ (load_file : String → LoadOutcome) (exists : String → Bool) (process_env : Env) where
  -- The environment of the process, or what loading a file left.
  abbrev pub IsSource : Env → Type 0
  IsSource e = (e ≡ process_env) ⊎ ((path : String) × (load_file path ≡ loads e))

  after_failure-explicit :
      (path code message : String) (e : Env)
      → after_failure load_file exists process_env path true code message ≢ env e
  unfolding after_failure
  after_failure-explicit path code message e = ground arith

  after_failure-env :
      (path : String) (explicit : Bool) (code message : String) (e : Env)
      → after_failure load_file exists process_env path explicit code message ≡ env e
      → process_env ≡ e
  unfolding after_failure
  after_failure-env path explicit code message e h = ground arith

  load_env_file-IsSource :
      (path : String) (explicit : Bool) (e : Env)
      → load_env_file load_file exists process_env path explicit ≡ env e
      → IsSource e
  unfolding load_env_file after_load
  load_env_file-IsSource path explicit e h = go (load_file path) refl h
    where
      go :
          (r : LoadOutcome)
          → load_file path ≡ r
          → after_load load_file exists process_env path explicit r ≡ env e
          → IsSource e
      go (loads e') l h = inr (path, l ∙ ap loads (ground arith))
      go (fails code message) l h = inl (sym (after_failure-env path explicit code message e h))

  load_env_file-explicit :
      (path : String) (r : LoadOutcome) (code message : String) (e : Env)
      → load_file path ≡ fails code message
      → load_env_file load_file exists process_env path true ≢ env e
  unfolding load_env_file after_load
  load_env_file-explicit path r code message e h = λ l.
      after_failure-explicit path code message e
        (ap (after_load load_file exists process_env path true) (sym h) ∙ l)

  missing_default :
      (message : String)
      → exists ".env" ≡ false
      → after_load load_file exists process_env ".env" false (fails "ENOENT" message)
        ≡ env process_env
  unfolding after_load after_failure
  missing_default message h = ground arith

module _ (parse_url : String → Option Url) (file_at : String → FileAccess) where
  checked_result-IsValid :
      (e : Env) (c : AppConfig) (ws : List ConfigWarning)
      → checked_result (validate parse_url file_at e) ≡ config c ws
      → IsValid parse_url file_at e c
  unfolding checked_result
  checked_result-IsValid e c ws h = go (validate parse_url file_at e) refl h
    where
      go :
          (r : ValidationResult)
          → validate parse_url file_at e ≡ r
          → checked_result r ≡ config c ws
          → IsValid parse_url file_at e c
      go (accepted c' ws') v h = validate-IsValid parse_url file_at e c ws (ground arith)
      go (rejected es ws') v h = ground arith

  from_env-env :
      (r : EnvLoaded) (c : AppConfig) (ws : List ConfigWarning)
      → from_env parse_url file_at r ≡ config c ws
      → (e : Env) × (r ≡ env e) × (IsValid parse_url file_at e c)
  unfolding from_env
  from_env-env (env e) c ws h = (e, refl, checked_result-IsValid e c ws h)
  from_env-env (throws err) c ws h = ground arith

  -- A configuration that is returned at startup is valid for an environment, which is the process's own or what
  -- loading a file left.
  pub load_config-IsValid :
      (load_file : String → LoadOutcome) (exists : String → Bool) (process_env : Env)
      (argv : List String) (c : AppConfig) (ws : List ConfigWarning)
      → load_config parse_url file_at load_file exists process_env argv ≡ config c ws
      → (e : Env) × (IsSource load_file exists process_env e) × (IsValid parse_url file_at e c)
  unfolding load_config load_from
  load_config-IsValid load_file exists process_env argv c ws h = go (resolve_env_file_path argv) h
    where
      go :
          (p : EnvFilePath)
          → load_from parse_url file_at load_file exists process_env (is_explicit argv) p
            ≡ config c ws
          → (e : Env) × (IsSource load_file exists process_env e) × (IsValid parse_url file_at e c)
      go no_path h = ground arith
      go (file path) h =
          let (e, l, v) =
            from_env-env (load_env_file load_file exists process_env path (is_explicit argv)) c ws
              h in
          (e, load_env_file-IsSource load_file exists process_env path (is_explicit argv) e l, v)

  -- With an `--env-file` flag nothing is returned when the files cannot be loaded, whatever the reason.
  pub load_config-explicit :
      (load_file : String → LoadOutcome) (exists : String → Bool) (process_env : Env)
      (argv : List String) (code message : String → String) (c : AppConfig)
      (ws : List ConfigWarning)
      → is_explicit argv ≡ true
      → ((path : String) → load_file path ≡ fails (code path) (message path))
      → load_config parse_url file_at load_file exists process_env argv ≢ config c ws
  unfolding load_config load_from
  load_config-explicit load_file exists process_env argv code message c ws x f =
      go (resolve_env_file_path argv) (is_explicit argv) x
    where
      go :
          (p : EnvFilePath) (explicit : Bool)
          → explicit ≡ true
          → load_from parse_url file_at load_file exists process_env explicit p ≢ config c ws
      go no_path explicit x h = ground arith
      go (file path) true x h =
          let (e, l, v) =
            from_env-env (load_env_file load_file exists process_env path true) c ws h in
          load_env_file-explicit load_file exists process_env path (load_file path) (code path)
            (message path) e (f path) l
      go (file path) false x h = ground arith

  -- Without a flag, a default file that does not exist changes nothing: the process's environment is validated.
  pub load_config-default :
      (load_file : String → LoadOutcome) (exists : String → Bool) (process_env : Env)
      (argv : List String) (message : String)
      → is_explicit argv ≡ false
      → load_file ".env" ≡ fails "ENOENT" message
      → exists ".env" ≡ false
      → load_config parse_url file_at load_file exists process_env argv
        ≡ checked_result (validate parse_url file_at process_env)
  unfolding load_config load_from load_env_file checked_result from_env
  load_config-default load_file exists process_env argv message x f n =
      ap (λ p. load_from parse_url file_at load_file exists process_env (is_explicit argv) p)
        (resolve_env_file_path-default argv x)
      ∙ ap
          (λ b.
            from_env parse_url file_at
              (after_load load_file exists process_env ".env" b (load_file ".env")))
          x
      ∙ ap
          (λ r. from_env parse_url file_at (after_load load_file exists process_env ".env" false r))
          f
      ∙ ap (from_env parse_url file_at) (missing_default load_file exists process_env message n)
