-- ===== src/Config/Values/Laws.antt =====
-- src/config/validate.ts: what the validators of one variable return, whatever the variable holds.
use ftd_metrics_exporter.Prelude.{
  ℕ, ◌≤◌, ◌≡◌, refl, String, true, List, [], Option, none, some, includes, arith,
}
use ftd_metrics_exporter.Prelude.Int.{ℤ, pos, negsuc}
use ftd_metrics_exporter.Config.{Env, BackendType, scc, fmc, Problem, Checked}
use ftd_metrics_exporter.Config.Values.{
  non_empty, parse_integer, check_range, validate_positive_int, max_timer_seconds,
  check_poll_interval, validate_poll_interval, validate_enum, FileAccess, is_file,
  check_readable_path, check_optional_path, fine, refused, maybe, check_integer,
}

abbrev pub IsBetween : ℕ → ℕ → ℕ → Type 0
IsBetween lo hi n = (lo ≤ n) × (n ≤ hi)

pub maybe-satisfies :
    {A B : Type 0} (P : B → Type 0) (b : B) (f : A → B) (o : Option A)
    → P b
    → ((a : A) → P (f a))
    → P (maybe b f o)
maybe-satisfies P b f none hb hf = hb
maybe-satisfies P b f (some a) hb hf = hf a

pub maybe_cases :
    {A B : Type 0} (P : B → Type 0) (b : B) (f : A → B) (o : Option A)
    → P b
    → ((a : A) → o ≡ some a → P (f a))
    → P (maybe b f o)
maybe_cases P b f none hb hf = hb
maybe_cases P b f (some a) hb hf = hf a refl

-- What holds of the default, of a refused value and of every checked integer.
check_integer-satisfies :
    (P : Checked ℕ → Type 0) (name : String) (default : ℕ) (check : ℤ → Checked ℕ)
    (o : Option String)
    → P (fine default)
    → ((problem : Problem) → P (refused default problem))
    → ((parsed : ℤ) → P (check parsed))
    → P (maybe (fine default) (check_integer name default check) o)
check_integer-satisfies P name default check o hd hr hc =
    maybe-satisfies P (fine default) (check_integer name default check) o hd
      (λ raw. maybe-satisfies P _ check (parse_integer raw) (hr _) hc)

check_range-IsBetween :
    (name : String) (default lo hi : ℕ) (parsed : ℤ)
    → IsBetween lo hi default
    → IsBetween lo hi
        (check_range name default (some (record { min = some lo; max = some hi })) parsed).value
unfolding check_range
check_range-IsBetween name default lo hi (negsuc n) (l, h) = (l, h)
check_range-IsBetween name default lo hi (pos n) (l, h) = (ground arith, ground arith)

-- The number is in the range, a refused or missing value's default included.
pub validate_positive_int-IsBetween :
    (env : Env) (name : String) (default lo hi : ℕ)
    → IsBetween lo hi default
    → IsBetween lo hi
        (validate_positive_int env name default
          (some (record { min = some lo; max = some hi }))).value
unfolding validate_positive_int
validate_positive_int-IsBetween env name default lo hi h =
    check_integer-satisfies (λ c. IsBetween lo hi c.value) name default _ (non_empty (env name)) h
      (λ problem. h) (λ parsed. check_range-IsBetween name default lo hi parsed h)

-- The least poll interval: the upstream's limit on the `scc` backend.
abbrev pub least_poll_interval : Option BackendType → ℕ
least_poll_interval (some scc) = 30
least_poll_interval _ = 1

check_poll_interval-IsBetween :
    (backend_type : Option BackendType) (parsed : ℤ)
    → IsBetween
        (least_poll_interval backend_type)
        max_timer_seconds
        (check_poll_interval backend_type parsed).value
unfolding check_poll_interval
check_poll_interval-IsBetween none (negsuc n) = (omega arith, omega arith)
check_poll_interval-IsBetween (some scc) (negsuc n) = (omega arith, omega arith)
check_poll_interval-IsBetween (some fmc) (negsuc n) = (omega arith, omega arith)
check_poll_interval-IsBetween none (pos n) = (ground arith, ground arith)
check_poll_interval-IsBetween (some scc) (pos n) = (ground arith, ground arith)
check_poll_interval-IsBetween (some fmc) (pos n) = (ground arith, ground arith)

default_poll_interval :
    (backend_type : Option BackendType)
    → IsBetween (least_poll_interval backend_type) max_timer_seconds 60
default_poll_interval none = (omega arith, omega arith)
default_poll_interval (some scc) = (omega arith, omega arith)
default_poll_interval (some fmc) = (omega arith, omega arith)

pub validate_poll_interval-IsBetween :
    (env : Env) (backend_type : Option BackendType)
    → IsBetween
        (least_poll_interval backend_type)
        max_timer_seconds
        (validate_poll_interval env backend_type).value
unfolding validate_poll_interval
validate_poll_interval-IsBetween env backend_type =
    check_integer-satisfies
      (λ c. IsBetween (least_poll_interval backend_type) max_timer_seconds c.value)
      "POLL_INTERVAL_SECONDS" 60 _ (non_empty (env "POLL_INTERVAL_SECONDS"))
      (default_poll_interval backend_type) (λ problem. default_poll_interval backend_type)
      (check_poll_interval-IsBetween backend_type)

abbrev pub IsMember : List String → String → Type 0
IsMember allowed s = includes allowed s ≡ true

-- The cast of `validateEnum` is sound: what it returns is one of the allowed values.
pub validate_enum-IsMember :
    (env : Env) (name : String) (allowed : List String) (default : String)
    → IsMember allowed default
    → IsMember allowed (validate_enum env name allowed default).value
unfolding validate_enum
validate_enum-IsMember env name allowed default h = ground arith

-- The value, if there is one, has the property.
abbrev pub IfPresent : {A : Type 0} → (A → Type 0) → Option A → Type 0
IfPresent P none = Unit
IfPresent P (some a) = P a

-- The path is a regular file that can be read.
abbrev pub IsReadable : (String → FileAccess) → String → Type 0
IsReadable file_at path = file_at path ≡ is_file true

pub check_readable_path-IsReadable :
    (file_at : String → FileAccess) (path name : String)
    → check_readable_path file_at path name ≡ []
    → IsReadable file_at path
unfolding check_readable_path
check_readable_path-IsReadable file_at path name h = ground arith

pub check_optional_path-IsReadable :
    (file_at : String → FileAccess) (path : Option String) (name : String)
    → check_optional_path file_at path name ≡ []
    → IfPresent (IsReadable file_at) path
check_optional_path-IsReadable file_at none name h = tt
check_optional_path-IsReadable file_at (some path) name h =
    check_readable_path-IsReadable file_at path name h
