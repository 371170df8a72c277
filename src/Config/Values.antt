-- ===== src/Config/Values.antt =====
-- src/config/validate.ts: the validators of one variable.
-- The file system is the parameter `file_at`: what `accessSync` with `R_OK` and `statSync` say of a path.
pub mod Laws
pub mod Integers
use Prim.Native.Char.{code}
use Prim.Native.String
use ftd_metrics_exporter.Prelude.{
  ℕ, zero, suc, ◌-◌, ◌^◌, ◌/◌, String, Bool, true, false, not, ◌&&◌, ◌||◌, List, [], ◌∷◌, Option,
  none, some, ltb, leb, ◌==◌, str_eq, includes, if◌then◌else◌,
}
use ftd_metrics_exporter.Prelude.Int.{ℤ, pos, negsuc}
use ftd_metrics_exporter.Prelude.Text.{is_empty, trim, all_digits, digits_value}
use ftd_metrics_exporter.Metrics.Enums.{lowercase_enum_label}
use ftd_metrics_exporter.Config.{
  Env, BackendType, scc, fmc, Problem, backend_type_unset, backend_type_unknown, not_an_integer,
  out_of_range, poll_not_positive, poll_too_long, poll_too_short_for_scc, not_one_of, not_a_boolean,
  not_a_regular_file, not_readable, Checked, time_range_values,
}

-- `nonEmpty`: a blank value counts as unset, any other is taken as it stands.
unfoldable pub non_empty : Option String → Option String
non_empty none = none
non_empty (some value) = if is_empty (trim value) then none else some value

abbrev pub fine : {A : Type 0} → A → Checked A
fine a = record { value = a; errors = [] }

abbrev pub refused : {A : Type 0} → A → Problem → Checked A
refused a problem = record { value = a; errors = problem ∷ [] }

abbrev pub backend_type_of : Option String → Checked (Option BackendType)
backend_type_of none = refused none backend_type_unset
backend_type_of (some raw) =
    if str_eq raw "scc"
    then fine (some scc)
    else if str_eq raw "fmc"
    then fine (some fmc)
    else refused none (backend_type_unknown raw)

unfoldable pub validate_backend_type : Env → Checked (Option BackendType)
validate_backend_type env = backend_type_of (non_empty (env "BACKEND_TYPE"))

-- MAX_TIMER_SECONDS
abbrev pub max_timer_seconds : ℕ
max_timer_seconds = 2147483647 / 1000

abbrev pub max_safe_integer : ℕ
max_safe_integer = 2 ^ 53 - 1

abbrev pub negated : ℕ → ℤ
negated zero = pos 0
negated (suc n) = negsuc n

-- The digits of an integer, if there are any and the integer is safe.
unfoldable pub safe_magnitude : String → Option ℕ
safe_magnitude digits =
    if not (is_empty digits) && all_digits digits && leb (digits_value 0 digits) max_safe_integer
    then some (digits_value 0 digits)
    else none

abbrev pub signed : Bool → Option ℕ → Option ℤ
signed negative none = none
signed true (some n) = some (negated n)
signed false (some n) = some (pos n)

-- The test of /^-?\d+$/ with `Number.parseInt` and `Number.isSafeInteger`.
unfoldable pub parse_trimmed_integer : String → Option ℤ
parse_trimmed_integer String.[] = none
parse_trimmed_integer (String.◌∷◌ c s) =
    if code c == b'-'
    then signed true (safe_magnitude s)
    else signed false (safe_magnitude (String.◌∷◌ c s))

unfoldable pub parse_integer : String → Option ℤ
parse_integer raw = parse_trimmed_integer (trim raw)

pub record IntRange : Type 0 where
  pub min : Option ℕ
  pub max : Option ℕ

-- `default` for a missing value, else `f` of the value.
abbrev pub maybe : {A B : Type 0} → B → (A → B) → Option A → B
maybe default f none = default
maybe default f (some a) = f a

abbrev pub value_or : {A : Type 0} → A → Option A → A
value_or default none = default
value_or default (some a) = a

abbrev pub is_above : Option ℕ → ℕ → Bool
is_above none n = false
is_above (some max) n = ltb max n

abbrev pub min_of : Option IntRange → ℕ
min_of none = 1
min_of (some range) = value_or 1 range.min

abbrev pub max_of : Option IntRange → Option ℕ
max_of none = none
max_of (some range) = range.max

-- The range test of `validatePositiveInt`, whose bounds are not negative.
unfoldable pub check_range : (name : String) → (default : ℕ) → Option IntRange → ℤ → Checked ℕ
check_range name default range (negsuc n) =
    refused default (out_of_range name (min_of range) (max_of range) (negsuc n))
check_range name default range (pos n) =
    if ltb n (min_of range) || is_above (max_of range) n
    then refused default (out_of_range name (min_of range) (max_of range) (pos n))
    else fine n

-- What is done with the integer that a set variable holds: `check`, or it is refused.
abbrev pub check_integer : (name : String) → ℕ → (ℤ → Checked ℕ) → String → Checked ℕ
check_integer name default check raw =
    maybe (refused default (not_an_integer name raw)) check (parse_integer raw)

unfoldable pub validate_positive_int : Env → (name : String) → ℕ → Option IntRange → Checked ℕ
validate_positive_int env name default range =
    maybe (fine default) (check_integer name default (check_range name default range))
      (non_empty (env name))

abbrev pub is_scc : Option BackendType → Bool
is_scc (some scc) = true
is_scc _ = false

unfoldable pub check_poll_interval : Option BackendType → ℤ → Checked ℕ
check_poll_interval backend_type (negsuc n) = refused 60 (poll_not_positive (negsuc n))
check_poll_interval backend_type (pos n) =
    if leb n 0
    then refused 60 (poll_not_positive (pos n))
    else if ltb max_timer_seconds n
    then refused 60 (poll_too_long n)
    else if is_scc backend_type && ltb n 30
    then refused 60 (poll_too_short_for_scc n)
    else fine n

unfoldable pub validate_poll_interval : Env → Option BackendType → Checked ℕ
validate_poll_interval env backend_type =
    maybe (fine 60) (check_integer "POLL_INTERVAL_SECONDS" 60 (check_poll_interval backend_type))
      (non_empty (env "POLL_INTERVAL_SECONDS"))

unfoldable pub validate_enum : Env → (name : String) → List String → String → Checked String
validate_enum env name allowed default = elim (non_empty (env name)) [
  | none ↦ fine default
  | some raw ↦
      if includes allowed raw then fine raw else refused default (not_one_of name allowed raw)
]

unfoldable pub validate_time_range : Env → (name : String) → Checked String
validate_time_range env name = validate_enum env name time_range_values "5m"

-- Lower case of ASCII letters decides the comparisons: no other letter becomes one of `true`, `false`.
unfoldable pub validate_boolean : Env → (name : String) → Bool → Checked Bool
validate_boolean env name default = elim (non_empty (env name)) [
  | none ↦ fine default
  | some raw ↦
      let lowered = lowercase_enum_label (trim raw) in
      if str_eq lowered "true"
      then fine true
      else if str_eq lowered "false"
      then fine false
      else refused default (not_a_boolean name raw)
]

-- What the file system says of a path: `accessSync` or `statSync` throws, or `isFile()`.
pub data FileAccess : Type 0 where
  throws : FileAccess
  is_file : Bool → FileAccess

-- `checkReadablePath`: what it pushes.
unfoldable pub check_readable_path :
    (file_at : String → FileAccess) → (path name : String) → List Problem
check_readable_path file_at path name = elim (file_at path) [
  | throws ↦ not_readable name path ∷ []
  | is_file regular ↦ if not regular then not_a_regular_file name path ∷ [] else []
]

-- `if (path !== undefined) checkReadablePath(path, name, errors)`
abbrev pub check_optional_path :
    (file_at : String → FileAccess) → Option String → (name : String) → List Problem
check_optional_path file_at none name = []
check_optional_path file_at (some path) name = check_readable_path file_at path name
