-- ===== src/Backends/Fmc/Map.antt =====
-- src/backends/fmc/map.ts, `mapFmcFamilyResponse`, and src/backends/fmc/empty.ts: one response for one
-- device and one metric family.
-- `new Date(text)` is the parameter `new_date`. The message on several devices leaves out their count.
pub mod Laws
use ftd_metrics_exporter.Prelude.{
  String, Bool, true, false, List, [], ◌∷◌, ◌++◌, Option, none, some, str_eq, if◌then◌else◌,
}
use ftd_metrics_exporter.Prelude.Int.{ℤ}
use ftd_metrics_exporter.Prelude.Text.{concat}
use ftd_metrics_exporter.Prelude.Json.{
  Json, null, bool, num, str, arr, obj, Number, Items, nil, cons, Fields, items, get, below,
}
use ftd_metrics_exporter.Backends.Fields.{FieldRead, ok, malformed, read_optional_string}
use ftd_metrics_exporter.Backends.Groups.{
  ParseError, parse_error, GroupMapResult, CpuStats, DiskStats, ChassisStats, HaStats, RaVpnStats,
  S2sTunnelStats, map_cpu, map_memory, map_disk, map_chassis,
}
use ftd_metrics_exporter.Backends.Interfaces.{
  InterfaceStats, MapInterfaceResult, map_interface_entry, fmc_interface_status_fields,
}
use ftd_metrics_exporter.Backends.Timestamps.{parse_fmc_timestamp}

pub data FmcMetricFamily : Type 0 where
  cpu mem interface disk_stats chassis_stats : FmcMetricFamily

abbrev pub family_label : FmcMetricFamily → String
family_label cpu = "CPU"
family_label mem = "MEM"
family_label interface = "INTERFACE"
family_label disk_stats = "DISK_STATS"
family_label chassis_stats = "CHASSIS_STATS"

-- The groups of a snapshot, each of which may be missing: `partial`.
pub record Groups : Type 0 where
  pub cpu_group : Option CpuStats
  pub memory_group : Option CpuStats
  pub disk_group : Option DiskStats
  pub chassis_group : Option ChassisStats
  pub ha_group : Option HaStats
  pub ra_vpn_group : Option RaVpnStats
  pub tunnels_group : Option (List S2sTunnelStats)
  pub interfaces_group : Option (List InterfaceStats)

abbrev pub no_groups : Groups
no_groups = record {
  cpu_group = none;
  memory_group = none;
  disk_group = none;
  chassis_group = none;
  ha_group = none;
  ra_vpn_group = none;
  tunnels_group = none;
  interfaces_group = none;
}

pub record FmcFamilyMapResult : Type 0 where
  pub window_start : Option ℤ
  pub window_end : Option ℤ
  pub partial : Groups
  pub parse_errors : List ParseError

-- `isEmptyFamilyResponse`
abbrev pub is_empty_family_response : Fields → Bool
is_empty_family_response response = elim (get "items" response) [
  | none ↦ elim (get "paging" response) [ some (obj paging) ↦ true | _ ↦ false ]
  | some (arr nil) ↦ true
  | some _ ↦ false
]

-- `paging.count`, if it is a number above 1.
abbrev pub count_above_one : Option Json → Bool
count_above_one (some (num n)) = below 1 n
count_above_one _ = false

abbrev pub matches_several : Option Json → Bool
matches_several (some (obj paging)) = count_above_one (get "count" paging)
matches_several _ = false

abbrev pub is_object : Option Json → Bool
is_object (some (obj fields)) = true
is_object _ = false

-- `items[0]`, if it is an object.
abbrev pub first_object : Option Json → Option Fields
first_object (some (arr (cons (obj item) rest))) = some item
first_object _ = none

-- The entries of an interface list, with the errors of all of them.
unfoldable pub map_interfaces :
    (device_uid : String) → List Json → List InterfaceStats × List ParseError
map_interfaces device_uid [] = ([], [])
map_interfaces device_uid (raw ∷ rest) =
    let (interfaces, errors) = map_interfaces device_uid rest in
    let mapped = map_interface_entry device_uid raw fmc_interface_status_fields in
    elim mapped.interface [
      | none ↦ (interfaces, mapped.parse_errors ++ errors)
      | some i ↦ (i ∷ interfaces, mapped.parse_errors ++ errors)
    ]

unfoldable pub interface_list :
    (device_uid : String) → Option Json → Option (List InterfaceStats) × List ParseError
interface_list device_uid none = (none, [])
interface_list device_uid (some (arr raw)) =
    let (interfaces, errors) = map_interfaces device_uid (items raw) in (some interfaces, errors)
interface_list device_uid (some _) =
    (none, parse_error device_uid "interface" "interfaceHealthMetricsList is not an array" ∷ [])

-- The `switch` on the family.
unfoldable pub family_groups :
    FmcMetricFamily → (device_uid : String) → Fields → Groups × List ParseError
family_groups cpu device_uid item =
    let r = map_cpu device_uid (get "cpuHealthMetrics" item) in
    (record no_groups { cpu_group = r.value }, r.parse_errors)
family_groups mem device_uid item =
    let r = map_memory device_uid (get "memoryHealthMetrics" item) in
    (record no_groups { memory_group = r.value }, r.parse_errors)
family_groups disk_stats device_uid item =
    let r = map_disk device_uid (get "diskHealthMetrics" item) in
    (record no_groups { disk_group = r.value }, r.parse_errors)
family_groups chassis_stats device_uid item =
    let r = map_chassis device_uid (get "chassisStatsHealthMetrics" item) in
    (record no_groups { chassis_group = r.value }, r.parse_errors)
family_groups interface device_uid item =
    let r = interface_list device_uid (get "interfaceHealthMetricsList" item) in
    (record no_groups { interfaces_group = r.0 }, r.1)

-- The result of a response that gives no data.
unfoldable pub nothing : List ParseError → FmcFamilyMapResult
nothing errors = record {
  window_start = none;
  window_end = none;
  partial = no_groups;
  parse_errors = errors;
}

module _ (new_date : String → Option ℤ) (device_uid : String) where
  abbrev pub family_error : FmcMetricFamily → (message : String) → FmcFamilyMapResult
  family_error family message = nothing (
      parse_error device_uid (family_label family) (concat (family_label family ∷ message ∷ []))
      ∷ [])

  -- The time under a key, and the error of a text that is none.
  abbrev pub checked_time :
      FmcMetricFamily → (key text : String) → Option ℤ → Option ℤ × List ParseError
  checked_time family key text (some date) = (some date, [])
  checked_time family key text none = (
    none,
    parse_error device_uid (family_label family)
          (concat ("unparseable FMC " ∷ key ∷ ": \"" ∷ text ∷ "\"" ∷ []))
        ∷ [],
  )

  abbrev pub time_field :
      FmcMetricFamily → (key : String) → Option Json → Option ℤ × List ParseError
  time_field family key (some (str text)) =
      checked_time family key text (parse_fmc_timestamp new_date text)
  time_field family key _ = (none, [])

  unfoldable pub map_item : FmcMetricFamily → Fields → FmcFamilyMapResult
  map_item family item =
      let start = time_field family "startTime" (get "startTime" item) in
      let stop = time_field family "endTime" (get "endTime" item) in
      let groups = family_groups family device_uid item in
      record {
        window_start = start.0;
        window_end = stop.0;
        partial = groups.0;
        parse_errors = start.1 ++ (stop.1 ++ groups.1);
      }

  -- An item is used if its id is missing or the device's.
  abbrev pub check_id : FmcMetricFamily → Fields → FieldRead String → FmcFamilyMapResult
  check_id family item malformed = family_error family " response items[0].id is not a string"
  check_id family item (ok none) = map_item family item
  check_id family item (ok (some id)) =
      if str_eq id device_uid
      then map_item family item
      else family_error family (
          concat
            (" response items[0].id (\"" ∷ id ∷ "\") does not match the requested device" ∷ []))

  abbrev pub check_item : FmcMetricFamily → Option Fields → FmcFamilyMapResult
  check_item family none = family_error family " response items[0] is not an object"
  check_item family (some item) = check_id family item (read_optional_string item "id")

  unfoldable pub map_body : FmcMetricFamily → Fields → FmcFamilyMapResult
  map_body family response =
      if is_object (get "error" response)
      then family_error family " request returned an FMC error envelope, not metrics"
      else if is_empty_family_response response
      then nothing []
      else if matches_several (get "paging" response)
      then family_error family
          " response for a single-device query unexpectedly matched several devices"
      else check_item family (first_object (get "items" response))

  unfoldable pub map_fmc_family_response : Json → FmcMetricFamily → FmcFamilyMapResult
  map_fmc_family_response (obj response) family = map_body family response
  map_fmc_family_response _ family = family_error family " response body is not an object"
