-- ===== src/Backends/Fields.antt =====
-- src/backends/shared/numbers.ts: reading optional fields of an untyped object.
use ftd_metrics_exporter.Prelude.{String, Option, none, some, if◌then◌else◌}
use ftd_metrics_exporter.Prelude.Text.{is_empty}
use ftd_metrics_exporter.Prelude.Json.{Json, num, str, Number, Fields, get, is_finite}

-- `FieldRead`: the field's value if it is there, or a field of the wrong type.
pub data FieldRead (T : Type 0) : Type 0 where
  ok : Option T → FieldRead T
  malformed : FieldRead T

abbrev pub number_of : Json → FieldRead Number
number_of (num n) = if is_finite n then ok (some n) else malformed
number_of _ = malformed

unfoldable pub read_optional_number : Fields → String → FieldRead Number
read_optional_number container key = elim (get key container) [
  | none ↦ ok none
  | some v ↦ number_of v
]

abbrev pub string_of : Json → FieldRead String
string_of (str s) = ok (some s)
string_of _ = malformed

unfoldable pub read_optional_string : Fields → String → FieldRead String
read_optional_string container key = elim (get key container) [
  | none ↦ ok none
  | some v ↦ string_of v
]

abbrev pub required_of : Json → Option String
required_of (str s) = if is_empty s then none else some s
required_of _ = none

-- `readRequiredString`: `none` is `{ ok: false }`.
unfoldable pub read_required_string : Fields → String → Option String
read_required_string container key = elim (get key container) [
  | none ↦ none
  | some v ↦ required_of v
]
