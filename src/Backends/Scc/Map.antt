-- ===== src/Backends/Scc/Map.antt =====
-- src/backends/scc/map.ts, `mapSccResponse`, and src/backends/scc/time.ts.
-- `new Date(text)` is the parameter `new_date`.
pub mod Laws
use Prim.Native.Char.{code}
use Prim.Native.String
use ftd_metrics_exporter.Prelude.{
  ℕ, String, Bool, true, false, ◌&&◌, ◌||◌, List, [], ◌∷◌, ◌++◌, flatten, map, Option, none, some,
  ◌==◌, if◌then◌else◌,
}
use ftd_metrics_exporter.Prelude.Int.{ℤ}
use ftd_metrics_exporter.Prelude.Text.{concat, is_digit}
use ftd_metrics_exporter.Prelude.Json.{Json, str, arr, obj, Items, Fields, items, get}
use ftd_metrics_exporter.Backends.Fields.{read_required_string}
use ftd_metrics_exporter.Backends.Groups.{
  ParseError, parse_error, map_cpu, map_memory, map_disk, map_chassis, map_ha, map_ra_vpn,
}
use ftd_metrics_exporter.Backends.Groups.Tunnels.{map_s2s_tunnels}
use ftd_metrics_exporter.Backends.Interfaces.{
  InterfaceStats, map_interface_entry, scc_interface_status_fields,
}
use ftd_metrics_exporter.Backends.Timestamps.{fits}
use ftd_metrics_exporter.Backends.Fmc.Map.{Groups}
use ftd_metrics_exporter.Backends.Fmc.Merge.{DeviceHealthSnapshot}

-- A diagnostic of a device, or of the response as a whole.
pub data MapError : Type 0 where
  root : (message : String) → MapError
  of_device : ParseError → MapError

-- What is left of a text whose beginning fits a pattern, in which `d` stands for a digit.
unfoldable pub after_fit : (pattern text : String) → Option String
after_fit String.[] s = some s
after_fit (String.◌∷◌ p ps) String.[] = none
after_fit (String.◌∷◌ p ps) (String.◌∷◌ c s) =
    let rest = after_fit ps s in
    if (if code p == b'd' then is_digit (code c) else code p == code c) then rest else none

unfoldable pub skip_digits : String → String
skip_digits String.[] = String.[]
skip_digits (String.◌∷◌ c s) =
    let rest = skip_digits s in if is_digit (code c) then rest else String.◌∷◌ c s

abbrev pub starts_with_digit : String → Bool
starts_with_digit String.[] = false
starts_with_digit (String.◌∷◌ c s) = is_digit (code c)

-- The test of /^(?:Z|[+-]\d{2}:?\d{2})$/.
unfoldable pub is_zone : String → Bool
is_zone s = fits "Z" s || fits "+dd:dd" s || fits "+dddd" s || fits "-dd:dd" s || fits "-dddd" s

-- The test of /^(?:\.\d+)?(?:Z|[+-]\d{2}:?\d{2})$/.
unfoldable pub is_fraction_and_zone : String → Bool
is_fraction_and_zone String.[] = false
is_fraction_and_zone (String.◌∷◌ c s) =
    if code c == b'.'
    then starts_with_digit s && is_zone (skip_digits s)
    else is_zone (String.◌∷◌ c s)

abbrev pub is_rest : Option String → Bool
is_rest none = false
is_rest (some rest) = is_fraction_and_zone rest

-- The test of ISO_8601_PATTERN.
unfoldable pub is_iso_8601 : String → Bool
is_iso_8601 value = is_rest (after_fit "dddd-dd-ddTdd:dd:dd" value)

-- The entries of an interface list, with the errors of all of them.
unfoldable pub map_interfaces :
    (device_uid : String) → List Json → List InterfaceStats × List ParseError
map_interfaces device_uid [] = ([], [])
map_interfaces device_uid (raw ∷ rest) =
    let (interfaces, errors) = map_interfaces device_uid rest in
    let mapped = map_interface_entry device_uid raw scc_interface_status_fields in
    elim mapped.interface [
      | none ↦ (interfaces, mapped.parse_errors ++ errors)
      | some i ↦ (i ∷ interfaces, mapped.parse_errors ++ errors)
    ]

abbrev pub interface_list :
    (device_uid : String) → Option Json → Option (List InterfaceStats) × List ParseError
interface_list device_uid none = (none, [])
interface_list device_uid (some (arr raw)) =
    let (interfaces, errors) = map_interfaces device_uid (items raw) in (some interfaces, errors)
interface_list device_uid (some _) =
    (none, parse_error device_uid "interface" "interfaceHealthMetrics is not an array" ∷ [])

module _ (new_date : String → Option ℤ) where
  unfoldable pub parse_scc_timestamp : String → Option ℤ
  parse_scc_timestamp value = if is_iso_8601 value then new_date value else none

  abbrev pub checked_time : (device_uid key text : String) → Option ℤ → Option ℤ × List ParseError
  checked_time device_uid key text (some date) = (some date, [])
  checked_time device_uid key text none = (
    none,
    parse_error device_uid key (concat ("unparseable " ∷ key ∷ ": \"" ∷ text ∷ "\"" ∷ [])) ∷ [],
  )

  abbrev pub time_field : (device_uid key : String) → Option Json → Option ℤ × List ParseError
  time_field device_uid key (some (str text)) =
      checked_time device_uid key text (parse_scc_timestamp text)
  time_field device_uid key _ = (none, [])

  -- The snapshot of a device that is named, and its diagnostics.
  unfoldable pub snapshot_of :
      Fields → (device_uid device_name : String) → DeviceHealthSnapshot × List ParseError
  snapshot_of raw device_uid device_name =
      let start = time_field device_uid "startTime" (get "startTime" raw) in
      let stop = time_field device_uid "endTime" (get "endTime" raw) in
      let cpu = map_cpu device_uid (get "cpuHealthMetrics" raw) in
      let memory = map_memory device_uid (get "memoryHealthMetrics" raw) in
      let disk = map_disk device_uid (get "diskHealthMetrics" raw) in
      let chassis = map_chassis device_uid (get "chassisStatsHealthMetrics" raw) in
      let ha = map_ha device_uid (get "haHealthMetrics" raw) in
      let ra_vpn = map_ra_vpn device_uid (get "raVpnSessionHealthMetrics" raw) in
      let tunnels = map_s2s_tunnels device_uid (get "s2sVpnTunnelHealthMetrics" raw) in
      let interfaces = interface_list device_uid (get "interfaceHealthMetrics" raw) in
      (
        record {
          device_uid = device_uid;
          device_name = device_name;
          window_start = start.0;
          window_end = stop.0;
          groups = record {
            cpu_group = cpu.value;
            memory_group = memory.value;
            disk_group = disk.value;
            chassis_group = chassis.value;
            ha_group = ha.value;
            ra_vpn_group = ra_vpn.value;
            tunnels_group = tunnels.value;
            interfaces_group = interfaces.0;
          };
        },
        flatten (
            start.1 ∷ stop.1 ∷ cpu.parse_errors ∷ memory.parse_errors ∷ disk.parse_errors
            ∷ chassis.parse_errors ∷ ha.parse_errors ∷ ra_vpn.parse_errors ∷ tunnels.parse_errors
            ∷ interfaces.1 ∷ []),
      )

  -- What one entry of the response gives.
  pub data Entry : Type 0 where
    skipped : (message : String) → Entry
    device : DeviceHealthSnapshot → List ParseError → Entry

  abbrev pub named_entry : Fields → (device_uid device_name : Option String) → Entry
  named_entry raw (some uid) (some name) =
      let (snapshot, errors) = snapshot_of raw uid name in device snapshot errors
  named_entry raw _ _ = skipped "device entry missing deviceUid/deviceName"

  unfoldable pub map_entry : Json → Entry
  map_entry (obj raw) =
      named_entry raw (read_required_string raw "deviceUid") (read_required_string raw "deviceName")
  map_entry _ = skipped "device entry is not an object"

  abbrev pub collect :
      Entry → List DeviceHealthSnapshot × List MapError → List DeviceHealthSnapshot × List MapError
  collect (skipped message) (snapshots, errors) = (snapshots, root message ∷ errors)
  collect (device snapshot es) (snapshots, errors) =
      (snapshot ∷ snapshots, map of_device es ++ errors)

  unfoldable pub map_devices : List Json → List DeviceHealthSnapshot × List MapError
  map_devices [] = ([], [])
  map_devices (raw ∷ rest) = collect (map_entry raw) (map_devices rest)

  unfoldable pub map_scc_response : Json → List DeviceHealthSnapshot × List MapError
  map_scc_response (arr payload) = map_devices (items payload)
  map_scc_response _ = ([], root "SCC health/metrics response is not an array" ∷ [])
