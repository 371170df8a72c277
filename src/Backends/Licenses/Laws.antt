-- ===== src/Backends/Licenses/Laws.antt =====
-- src/backends/shared/license-map.ts: when there is no license record.
use ftd_metrics_exporter.Prelude.{
  ℕ, ◌≡◌, refl, String, List, [], ◌∷◌, Option, none, some, append_nil, arith,
}
use ftd_metrics_exporter.Prelude.Int.{ℤ}
use ftd_metrics_exporter.Prelude.Json.{
  Json, null, bool, num, str, arr, obj, nil, cons, Fields, items, get,
}
use ftd_metrics_exporter.Backends.Fields.{read_required_string}
use ftd_metrics_exporter.Backends.Licenses.{
  LicenseMapResult, status_of, of_reg_status, of_first, of_items, of_array, map_license_response,
}

-- The response is an object with an empty list of items.
abbrev pub IsEmptyResponse : Json → Type 0
IsEmptyResponse (obj payload) = get "items" payload ≡ some (arr nil)
IsEmptyResponse _ = ⊥

module _ (new_date : String → Option ℤ) (utc_fields : ℤ → List ℕ) where
  -- A status or an error.
  abbrev IsExplained : LicenseMapResult → Type 0
  IsExplained r = r.status ≡ none → r.parse_errors ≡ [] → ⊥

  of_reg_status-IsExplained :
      (first : Fields) (o : Option String) → IsExplained (of_reg_status new_date utc_fields first o)
  unfolding status_of
  of_reg_status-IsExplained first none = λ h e. ground arith
  of_reg_status-IsExplained first (some reg) = λ h e. ground arith

  of_first-IsExplained : (v : Json) → IsExplained (of_first new_date utc_fields (some v))
  of_first-IsExplained (obj first) =
      of_reg_status-IsExplained first (read_required_string first "regStatus")
  of_first-IsExplained null = λ h e. ground arith
  of_first-IsExplained (bool b) = λ h e. ground arith
  of_first-IsExplained (num n) = λ h e. ground arith
  of_first-IsExplained (str s) = λ h e. ground arith
  of_first-IsExplained (arr vs) = λ h e. ground arith

  of_items-IsExplained :
      (v : Json) (vs : List Json) → IsExplained (of_items new_date utc_fields (v ∷ vs))
  unfolding of_items
  of_items-IsExplained v vs = λ h e. of_first-IsExplained v h (append_nil _ _ e).1

  of_array_empty :
      (o : Option Json)
      → (of_array new_date utc_fields o).status ≡ none
      → (of_array new_date utc_fields o).parse_errors ≡ []
      → o ≡ some (arr nil)
  of_array_empty none h e = ground arith
  of_array_empty (some (arr nil)) h e = refl
  of_array_empty (some (arr (cons v vs))) h e = elim (of_items-IsExplained v (items vs) h e) [ ]
  of_array_empty (some null) h e = ground arith
  of_array_empty (some (bool b)) h e = ground arith
  of_array_empty (some (num n)) h e = ground arith
  of_array_empty (some (str s)) h e = ground arith
  of_array_empty (some (obj fields)) h e = ground arith

  -- A response gives neither a status nor an error only if its list of items is empty.
  pub map_license_response-IsEmptyResponse :
      (payload : Json)
      → (map_license_response new_date utc_fields payload).status ≡ none
      → (map_license_response new_date utc_fields payload).parse_errors ≡ []
      → IsEmptyResponse payload
  unfolding map_license_response
  map_license_response-IsEmptyResponse (obj payload) h e = of_array_empty (get "items" payload) h e
  map_license_response-IsEmptyResponse null h e = ground arith
  map_license_response-IsEmptyResponse (bool b) h e = ground arith
  map_license_response-IsEmptyResponse (num n) h e = ground arith
  map_license_response-IsEmptyResponse (str s) h e = ground arith
  map_license_response-IsEmptyResponse (arr vs) h e = ground arith
