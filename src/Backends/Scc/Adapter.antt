-- ===== src/Backends/Scc/Adapter.antt =====
-- src/backends/scc/adapter.ts: the requests of an adapter that `init` has set up.
-- What the HTTP client gives for a request is an `Outcome`; `encodeURIComponent` and `JSON.parse` are
-- parameters.
pub mod Laws
use Prim.Native.Char.{code}
use Prim.Native.String
use ftd_metrics_exporter.Prelude.{
  ℕ, String, Bool, true, false, not, List, [], ◌∷◌, ◌++◌, Option, none, some, ◌==◌, str_eq,
  if◌then◌else◌,
}
use ftd_metrics_exporter.Prelude.Int.{ℤ}
use ftd_metrics_exporter.Prelude.Text.{concat, is_empty, trim}
use ftd_metrics_exporter.Prelude.Json.{Json, str, arr, obj, Items, Fields, items, get}
use ftd_metrics_exporter.Http.Errors.{
  HttpError, HttpErrorClass, Cause, http, classify_network_error,
}
use ftd_metrics_exporter.Backends.Certificates.{
  Device, DeviceCertificateEntry, CertificateError, map_device_certificates_response,
}
use ftd_metrics_exporter.Backends.Fmc.Adapter.{Outcome, returns, throws}
use ftd_metrics_exporter.Backends.Fmc.Adapter.Wire.{
  Refreshed, succeeds, request_failed, not_json, no_record,
}
use ftd_metrics_exporter.Backends.Fmc.Merge.{DeviceHealthSnapshot}
use ftd_metrics_exporter.Backends.Scc.Map.{MapError, root, map_scc_response}
use ftd_metrics_exporter.Backends.Scc.Inventory.{
  DeviceInventoryEntry, InventoryError, map_scc_inventory_response,
}

-- `value.endsWith('/') ? value.slice(0, -1) : value`
unfoldable pub trim_trailing_slash : String → String
trim_trailing_slash String.[] = String.[]
trim_trailing_slash (String.◌∷◌ c s) =
    let rest = trim_trailing_slash s in
    if is_empty s
    then (if code c == b'/' then String.[] else String.◌∷◌ c String.[])
    else String.◌∷◌ c rest

module _ (encode_component : String → String) where
  unfoldable pub build_url : (base_url fmc_uid time_range : String) → String
  build_url base_url fmc_uid time_range = concat (
      trim_trailing_slash base_url
      ∷ "/v1/inventory/managers/"
      ∷ encode_component fmc_uid
      ∷ "/health/metrics?timeRange="
      ∷ encode_component time_range
      ∷ [])

  unfoldable pub build_certificates_url : (base_url domain_uuid : String) → String
  build_certificates_url base_url domain_uuid = concat (
      trim_trailing_slash base_url
      ∷ "/v1/cdfmc/api/fmc_config/v1/domain/"
      ∷ encode_component domain_uuid
      ∷ "/devices/certificates"
      ∷ [])

unfoldable pub build_inventory_url : (base_url : String) → String
build_inventory_url base_url = concat (trim_trailing_slash base_url ∷ "/v1/inventory/devices" ∷ [])

unfoldable pub build_license_url : (base_url : String) → String
build_license_url base_url =
    concat
      (trim_trailing_slash base_url ∷ "/v1/cdfmc/api/fmc_platform/v1/license/smartlicenses" ∷ [])

unfoldable pub build_domain_info_url : (base_url : String) → String
build_domain_info_url base_url =
    concat (trim_trailing_slash base_url ∷ "/v1/cdfmc/api/fmc_platform/v1/info/domain" ∷ [])

-- The token that `init` keeps, or that it throws.
unfoldable pub init_token : (api_token : String) → Option String
init_token raw = if is_empty (trim raw) then none else some (trim raw)

-- `parsed.items.filter(isPlainObject)`
unfoldable pub objects : List Json → List Fields
objects [] = []
objects (obj fields ∷ rest) = fields ∷ objects rest
objects (_ ∷ rest) = objects rest

abbrev pub is_global : Option Json → Bool
is_global (some (str name)) = str_eq name "Global"
is_global _ = false

-- `items.find((item) => item.name === 'Global')`
unfoldable pub find_global : List Fields → Option Fields
find_global [] = none
find_global (item ∷ rest) =
    let later = find_global rest in if is_global (get "name" item) then some item else later

abbrev pub first_of : List Fields → Option Fields
first_of [] = none
first_of (item ∷ rest) = some item

abbrev pub global_or_first : Option Fields → Option Fields → Option Fields
global_or_first none first = first
global_or_first (some item) first = some item

abbrev pub text_of : Option Json → Option String
text_of (some (str s)) = some s
text_of _ = none

abbrev pub uuid_of : Option Fields → Option String
uuid_of none = none
uuid_of (some item) = text_of (get "uuid" item)

abbrev pub domain_of_items : Option Json → Option String
domain_of_items (some (arr raw)) =
    let found = objects (items raw) in
    uuid_of (global_or_first (find_global found) (first_of found))
domain_of_items _ = none

abbrev pub domain_of_payload : Option Json → Option String
domain_of_payload (some (obj parsed)) = domain_of_items (get "items" parsed)
domain_of_payload _ = none

-- `new Map`, in which a later device replaces an earlier one with the same `uidOnFmc`.
unfoldable pub device_by_uid_on_fmc : List DeviceInventoryEntry → (raw_id : String) → Option Device
device_by_uid_on_fmc [] raw_id = none
device_by_uid_on_fmc (d ∷ devices) raw_id = elim (device_by_uid_on_fmc devices raw_id) [
  | some later ↦ some later
  | none ↦ elim d.uid_on_fmc [
    | none ↦ none
    | some uid ↦
        if str_eq uid raw_id
        then some (record { device_uid = d.device_uid; device_name = d.device_name })
        else none
  ]
]

-- What `fetchSnapshot` ends with, and the diagnostics that it hands on.
pub data Fetched : Type 0 where
  snapshots : List DeviceHealthSnapshot → List MapError → Fetched
  fails : HttpError → Fetched

-- The calls of a snapshot, in order.
pub data SccCall : Type 0 where
  health refresh_inventory refresh_license refresh_certificates : SccCall

pub record Caches : Type 0 where
  pub inventory : Bool
  pub license : Bool
  pub certificates : Bool

module _ (parse_json : String → Option Json) where
  unfoldable pub resolve_scc_domain_uuid : Outcome String → Option String
  resolve_scc_domain_uuid (throws cause) = none
  resolve_scc_domain_uuid (returns body) = domain_of_payload (parse_json body)

  -- A refresh without an entry is a success only without a diagnostic.
  abbrev pub of_inventory :
      List DeviceInventoryEntry
      → List InventoryError
      → Refreshed InventoryError (List DeviceInventoryEntry)
  of_inventory [] (e ∷ es) = no_record (e ∷ es)
  of_inventory entries errors = succeeds entries errors

  abbrev pub inventory_of_payload :
      Option Json → Refreshed InventoryError (List DeviceInventoryEntry)
  inventory_of_payload none = not_json
  inventory_of_payload (some payload) =
      let (entries, errors) = map_scc_inventory_response payload in of_inventory entries errors

  unfoldable pub fetch_device_inventory_from_wire :
      Outcome String → Refreshed InventoryError (List DeviceInventoryEntry)
  fetch_device_inventory_from_wire (throws cause) = request_failed cause
  fetch_device_inventory_from_wire (returns body) = inventory_of_payload (parse_json body)

  module _ (new_date : String → Option ℤ) where
    -- The message of the parser, which ends the text of the source, is left out.
    abbrev pub snapshot_of_payload : Option Json → Fetched
    snapshot_of_payload none =
        snapshots [] (root "SCC health/metrics response body is not valid JSON" ∷ [])
    snapshot_of_payload (some payload) =
        let (devices, errors) = map_scc_response new_date payload in snapshots devices errors

    unfoldable pub fetch_health_snapshot : Outcome String → Fetched
    fetch_health_snapshot (throws cause) = fails (classify_network_error cause)
    fetch_health_snapshot (returns body) = snapshot_of_payload (parse_json body)

    abbrev pub when : Bool → SccCall → List SccCall
    when true call = call ∷ []
    when false call = []

    -- `fetchSnapshot`: the refreshes run in its `finally`, whatever the health request ended with.
    unfoldable pub fetch_snapshot : Caches → Outcome String → Fetched × List SccCall
    fetch_snapshot caches outcome = (
      fetch_health_snapshot outcome,
      health
          ∷ (when caches.inventory refresh_inventory
              ++ (when caches.license refresh_license
                  ++ when caches.certificates refresh_certificates)),
    )
