-- ===== src/Backends/Licenses.antt =====
-- src/backends/shared/license-map.ts: the state of the licenses.
-- `new Date(text)` and the UTC fields of a date are the engine's. The group of each error is `license`.
pub mod Laws
use ftd_metrics_exporter.Prelude.{
  ℕ, String, Bool, true, false, List, [], ◌∷◌, ◌++◌, Option, none, some, ltb, length, if◌then◌else◌,
}
use ftd_metrics_exporter.Prelude.Int.{ℤ}
use ftd_metrics_exporter.Prelude.Json.{Json, bool, arr, obj, Number, Items, Fields, end, items, get}
use ftd_metrics_exporter.Backends.Fields.{
  FieldRead, ok, malformed, read_optional_number, read_optional_string, read_required_string,
}
use ftd_metrics_exporter.Backends.Timestamps.{parse_license_timestamp}

pub record LicenseStatus : Type 0 where
  pub reg_status : String
  pub auth_status : Option String
  pub eval_used : Option Bool
  pub eval_expires_in_days : Option Number
  pub last_synchronized_time : Option ℤ
  pub last_renewed_time : Option ℤ

pub data LicenseError : Type 0 where
  not_an_object no_items item_not_an_object no_reg_status : LicenseError
  several_items : ℕ → LicenseError
  not_a_string : (field : String) → LicenseError
  not_a_boolean not_a_number : LicenseError
  bad_time : (field value : String) → LicenseError

pub record LicenseMapResult : Type 0 where
  pub status : Option LicenseStatus
  pub parse_errors : List LicenseError

-- `isPlainObject(first.metadata) ? first.metadata : undefined`, whose fields are absent if it is undefined.
abbrev pub metadata_of : Option Json → Fields
metadata_of (some (obj fields)) = fields
metadata_of _ = end

abbrev pub text_of : (field : String) → FieldRead String → Option String × List LicenseError
text_of field (ok value) = (value, [])
text_of field malformed = (none, not_a_string field ∷ [])

abbrev pub flag_of : Option Json → Option Bool × List LicenseError
flag_of none = (none, [])
flag_of (some (bool b)) = (some b, [])
flag_of (some _) = (none, not_a_boolean ∷ [])

abbrev pub days_of : FieldRead Number → Option Number × List LicenseError
days_of (ok value) = (value, [])
days_of malformed = (none, not_a_number ∷ [])

abbrev pub first_of : List Json → Option Json
first_of [] = none
first_of (v ∷ vs) = some v

module _ (new_date : String → Option ℤ) (utc_fields : ℤ → List ℕ) where
  abbrev pub known_time : (field value : String) → Option ℤ → Option ℤ × List LicenseError
  known_time field value none = (none, bad_time field value ∷ [])
  known_time field value (some date) = (some date, [])

  abbrev pub time_of : (field : String) → FieldRead String → Option ℤ × List LicenseError
  time_of field malformed = (none, not_a_string field ∷ [])
  time_of field (ok none) = (none, [])
  time_of field (ok (some value)) =
      known_time field value (parse_license_timestamp new_date utc_fields value)

  unfoldable pub status_of : (first : Fields) → (reg_status : String) → LicenseMapResult
  status_of first reg_status =
      let metadata = metadata_of (get "metadata" first) in
      let auth = text_of "authStatus" (read_optional_string metadata "authStatus") in
      let used = flag_of (get "evalUsed" metadata) in
      let days = days_of (read_optional_number metadata "evalExpiresInDays") in
      let synchronized =
        time_of "lastSynchronizedTime" (read_optional_string metadata "lastSynchronizedTime") in
      let renewed = time_of "lastRenewedTime" (read_optional_string metadata "lastRenewedTime") in
      record {
        status = some (record {
          reg_status = reg_status;
          auth_status = auth.0;
          eval_used = used.0;
          eval_expires_in_days = days.0;
          last_synchronized_time = synchronized.0;
          last_renewed_time = renewed.0;
        });
        parse_errors = auth.1 ++ (used.1 ++ (days.1 ++ (synchronized.1 ++ renewed.1)));
      }

  abbrev pub of_reg_status : (first : Fields) → Option String → LicenseMapResult
  of_reg_status first none = record { status = none; parse_errors = no_reg_status ∷ [] }
  of_reg_status first (some reg_status) = status_of first reg_status

  abbrev pub of_first : Option Json → LicenseMapResult
  of_first none = record { status = none; parse_errors = [] }
  of_first (some (obj first)) = of_reg_status first (read_required_string first "regStatus")
  of_first (some _) = record { status = none; parse_errors = item_not_an_object ∷ [] }

  -- More than one item is reported, and the first is used.
  unfoldable pub of_items : List Json → LicenseMapResult
  of_items all =
      let r = of_first (first_of all) in
      record r {
        parse_errors =
            (if ltb 1 (length all) then several_items (length all) ∷ [] else []) ++ r.parse_errors;
      }

  abbrev pub of_array : Option Json → LicenseMapResult
  of_array (some (arr raw)) = of_items (items raw)
  of_array _ = record { status = none; parse_errors = no_items ∷ [] }

  unfoldable pub map_license_response : Json → LicenseMapResult
  map_license_response (obj payload) = of_array (get "items" payload)
  map_license_response _ = record { status = none; parse_errors = not_an_object ∷ [] }
