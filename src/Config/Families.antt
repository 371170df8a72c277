-- ===== src/Config/Families.antt =====
-- src/config/validate.ts, `validateMetricFamilies`: the list of metric families.
pub mod Laws
use Prim.Native.Char.{code}
use Prim.Native.String
use ftd_metrics_exporter.Prelude.{
  ℕ, ◌++◌, String, Bool, true, false, not, ◌&&◌, List, [], ◌∷◌, Option, none, some, map, ◌==◌,
  includes, if◌then◌else◌,
}
use ftd_metrics_exporter.Prelude.Text.{is_empty, trim, split_on}
use ftd_metrics_exporter.Metrics.Enums.{replaced}
use ftd_metrics_exporter.Config.{
  Env, Problem, invalid_family, no_family, Checked, metric_family_values,
}
use ftd_metrics_exporter.Config.Values.{non_empty, fine, maybe}

-- The letters outside ASCII whose upper case is made of ASCII letters.
abbrev pub folded : ℕ → Option String
folded c =
    if c == 0xDF
    then some "SS"
    else if c == 0x131
    then some "I"
    else if c == 0x17F
    then some "S"
    else if c == 0xFB00
    then some "FF"
    else if c == 0xFB01
    then some "FI"
    else if c == 0xFB02
    then some "FL"
    else if c == 0xFB03
    then some "FFI"
    else if c == 0xFB04
    then some "FFL"
    else if c == 0xFB05
    then some "ST"
    else if c == 0xFB06
    then some "ST"
    else none

-- `s.toUpperCase()`, in which a letter whose upper case is not ASCII is left as it is: the result is
-- compared with ASCII texts only.
unfoldable pub to_upper : String → String
to_upper String.[] = String.[]
to_upper (String.◌∷◌ c s) =
    let rest = to_upper s in
    elim (folded (code c)) [
      | some upper ↦ String.◌++◌ upper rest
      | none ↦
          String.◌∷◌ (replaced "abcdefghijklmnopqrstuvwxyz" "ABCDEFGHIJKLMNOPQRSTUVWXYZ" c) rest
    ]

-- `filter((token) => token.length > 0)`
unfoldable pub not_blank : List String → List String
not_blank [] = []
not_blank (token ∷ tokens) =
    let rest = not_blank tokens in if is_empty token then rest else token ∷ rest

unfoldable pub family_tokens : String → List String
family_tokens raw = not_blank (map trim (split_on b',' raw))

-- The loop over the tokens: the families it keeps and the errors it pushes.
unfoldable pub families_of : List String → Checked (List String)
families_of [] = fine []
families_of (token ∷ tokens) =
    let rest = families_of tokens in
    if includes metric_family_values (to_upper token)
    then record rest { value = to_upper token ∷ rest.value }
    else record rest { errors = invalid_family token ∷ rest.errors }

abbrev pub is_nil : List String → Bool
is_nil [] = true
is_nil (x ∷ xs) = false

-- The families of the tokens of a set value; without a token there is no family.
unfoldable pub check_tokens : (raw : String) → (tokens : List String) → Checked (List String)
check_tokens raw tokens =
    let families = families_of tokens in
    if is_nil families.value && is_nil tokens
    then record families { errors = families.errors ++ (no_family raw ∷ []) }
    else families

unfoldable pub check_families : String → Checked (List String)
check_families raw = check_tokens raw (family_tokens raw)

unfoldable pub validate_metric_families : Env → Checked (List String)
validate_metric_families env =
    maybe (fine metric_family_values) check_families (non_empty (env "FMC_METRIC_FAMILIES"))
