-- ===== src/Config/EnvFile.antt =====
-- src/config/load.ts: the `.env` file, and the configuration at startup.
-- `process.loadEnvFile` and `existsSync` are parameters: the environment after the file is loaded, or
-- the error's code and message; whether a path exists. Freezing the result changes no value of it.
pub mod Laws
use ftd_metrics_exporter.Prelude.{
  ℕ, String, Bool, true, false, not, ◌&&◌, ◌||◌, List, [], ◌∷◌, Option, none, some, str_eq,
  if◌then◌else◌,
}
use ftd_metrics_exporter.Config.{Env, AppConfig, Problem, ConfigWarning}
use ftd_metrics_exporter.Config.Values.{FileAccess, maybe}
use ftd_metrics_exporter.Config.Backend.{Url, after_prefix}
use ftd_metrics_exporter.Config.Validate.{ValidationResult, accepted, rejected, validate}

abbrev pub env_file_flag_prefix : String
env_file_flag_prefix = "--env-file="

abbrev pub env_file_flag_standalone : String
env_file_flag_standalone = "--env-file"

-- The path to load; `no_path` is `null`, a flag that nothing follows.
pub data EnvFilePath : Type 0 where
  file : String → EnvFilePath
  no_path : EnvFilePath

abbrev pub following : List String → EnvFilePath
following [] = no_path
following (path ∷ rest) = file path

unfoldable pub resolve_env_file_path : (argv : List String) → EnvFilePath
resolve_env_file_path [] = file ".env"
resolve_env_file_path (arg ∷ rest) =
    let later = resolve_env_file_path rest in
    maybe (if str_eq arg env_file_flag_standalone then following rest else later) file
      (after_prefix env_file_flag_prefix arg)

abbrev pub is_present : Option String → Bool
is_present none = false
is_present (some s) = true

-- Whether some argument is the flag, in one of its forms.
unfoldable pub is_explicit : (argv : List String) → Bool
is_explicit [] = false
is_explicit (arg ∷ rest) =
    (str_eq arg env_file_flag_standalone || is_present (after_prefix env_file_flag_prefix arg))
    || is_explicit rest

pub data LoadOutcome : Type 0 where
  loads : Env → LoadOutcome
  fails : (code message : String) → LoadOutcome

pub data StartupError : Type 0 where
  flag_without_path : StartupError
  env_file_unreadable : (path : String) → StartupError
  env_file_failed : (path message : String) → StartupError
  invalid : List Problem → List ConfigWarning → StartupError

pub data EnvLoaded : Type 0 where
  env : Env → EnvLoaded
  throws : StartupError → EnvLoaded

pub data LoadResult : Type 0 where
  config : AppConfig → List ConfigWarning → LoadResult
  throws_config : StartupError → LoadResult

module _ (load_file : String → LoadOutcome) (exists : String → Bool) (process_env : Env) where
  unfoldable pub after_failure :
      (path : String) → (explicit : Bool) → (code message : String) → EnvLoaded
  after_failure path explicit code message =
      if str_eq code "ENOENT" && exists path
      then throws (env_file_unreadable path)
      else if str_eq code "ENOENT" && not explicit
      then env process_env
      else throws (env_file_failed path message)

  unfoldable pub after_load : (path : String) → (explicit : Bool) → LoadOutcome → EnvLoaded
  after_load path explicit (loads e) = env e
  after_load path explicit (fails code message) = after_failure path explicit code message

  -- `loadEnvFile`, with the environment that it leaves.
  unfoldable pub load_env_file : (path : String) → (explicit : Bool) → EnvLoaded
  load_env_file path explicit = after_load path explicit (load_file path)

unfoldable pub checked_result : ValidationResult → LoadResult
checked_result (accepted c warnings) = config c warnings
checked_result (rejected errors warnings) = throws_config (invalid errors warnings)

module _ (parse_url : String → Option Url) (file_at : String → FileAccess) where
  unfoldable pub from_env : EnvLoaded → LoadResult
  from_env (env e) = checked_result (validate parse_url file_at e)
  from_env (throws e) = throws_config e

  unfoldable pub load_from :
      (load_file : String → LoadOutcome)
      → (exists : String → Bool) → (process_env : Env) → (explicit : Bool) → EnvFilePath
      → LoadResult
  load_from load_file exists process_env explicit no_path = throws_config flag_without_path
  load_from load_file exists process_env explicit (file path) =
      from_env (load_env_file load_file exists process_env path explicit)

  unfoldable pub load_config :
      (load_file : String → LoadOutcome)
      → (exists : String → Bool) → (process_env : Env) → (argv : List String) → LoadResult
  load_config load_file exists process_env argv =
      load_from load_file exists process_env (is_explicit argv) (resolve_env_file_path argv)
