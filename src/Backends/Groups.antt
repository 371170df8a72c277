-- ===== src/Backends/Groups.antt =====
-- src/backends/shared/groups.ts: the mappers of the metric groups that both backends share.
-- `raw` is the group as `JSON.parse` gives it, `none` where the key is absent. A group without a value
-- and without an error is an absent one.
pub mod Laws
pub mod Tunnels
pub mod Chassis
use ftd_metrics_exporter.Prelude.{ℕ, String, List, [], ◌∷◌, ◌++◌, Option, none, some}
use ftd_metrics_exporter.Prelude.Text.{concat}
use ftd_metrics_exporter.Prelude.Json.{
  Json, null, bool, num, str, arr, obj, Number, Items, Fields, items,
}
use ftd_metrics_exporter.Backends.Fields.{
  FieldRead, ok, malformed, read_optional_number, read_optional_string, read_required_string,
}

pub record ParseError : Type 0 where
  pub device_uid : String
  pub group : String
  pub message : String

pub record GroupMapResult (T : Type 0) : Type 0 where
  pub value : Option T
  pub parse_errors : List ParseError

-- `CpuStats` and `MemoryStats`.
pub record CpuStats : Type 0 where
  pub lina : Option Number
  pub snort : Option Number
  pub system : Option Number

pub record DiskStats : Type 0 where
  pub total_usage_percent : Option Number

pub record ChassisFanStats : Type 0 where
  pub fan : String
  pub rpm_avg : Number

pub record ChassisPsuStats : Type 0 where
  pub psu : String
  pub fan_status : Option String
  pub input_status : Option String
  pub output_status : Option String

pub record ChassisStats : Type 0 where
  pub fans : List ChassisFanStats
  pub psus : List ChassisPsuStats

pub record HaStats : Type 0 where
  pub node_status : String
  pub node_type : String

pub record RaVpnStats : Type 0 where
  pub active_sessions_avg : Option Number
  pub inactive_sessions_avg : Option Number
  pub peak_concurrent_sessions : Option Number

pub record S2sTunnelStats : Type 0 where
  pub tunnel_id : String
  pub tunnel_name : String
  pub tunnel_state : String

abbrev pub fan_keys : List String
fan_keys = "1" ∷ "2" ∷ "3" ∷ "4" ∷ []

abbrev pub psu_keys : List String
psu_keys = "1" ∷ "2" ∷ []

module _ (device_uid : String) where
  abbrev pub parse_error : (group message : String) → ParseError
  parse_error group message = record { device_uid = device_uid; group = group; message = message }

  abbrev pub refused : {T : Type 0} → (group message : String) → GroupMapResult T
  refused group message = record { value = none; parse_errors = parse_error group message ∷ [] }

  abbrev pub accepted : {T : Type 0} → T → GroupMapResult T
  accepted value = record { value = some value; parse_errors = [] }

  -- How each mapper begins: an absent group gives nothing, one that is no object an error.
  unfoldable pub on_object :
      {T : Type 0}
      → Option Json
      → (group message : String) → (Fields → GroupMapResult T)
      → GroupMapResult T
  on_object none group message f = record { value = none; parse_errors = [] }
  on_object (some (obj fields)) group message f = f fields
  on_object (some _) group message f = refused group message

  -- Three optional numbers, or `none` if one of them is malformed.
  abbrev pub three :
      {A : Type 0}
      → FieldRead A
      → FieldRead A
      → FieldRead A
      → Option (Option A × Option A × Option A)
  three (ok a) (ok b) (ok c) = some (a, b, c)
  three _ _ _ = none

  unfoldable pub read_triple : Fields → (group : String) → GroupMapResult CpuStats
  read_triple container group =
      elim (three (read_optional_number container "linaUsageAvg")
        (read_optional_number container "snortUsageAvg")
        (read_optional_number container "systemUsageAvg")) [
          | none ↦ refused group (concat (group ∷ "HealthMetrics has a non-numeric field" ∷ []))
          | some (lina, snort, system) ↦
              accepted (record { lina = lina; snort = snort; system = system })
        ]

  unfoldable pub map_cpu : Option Json → GroupMapResult CpuStats
  map_cpu raw =
      on_object raw "cpu" "cpuHealthMetrics is not an object" (λ fields. read_triple fields "cpu")

  unfoldable pub map_memory : Option Json → GroupMapResult CpuStats
  map_memory raw =
      on_object raw "memory" "memoryHealthMetrics is not an object"
        (λ fields. read_triple fields "memory")

  unfoldable pub disk_fields : Fields → GroupMapResult DiskStats
  disk_fields raw = elim (read_optional_number raw "totalDiskUsageAvg") [
    | malformed ↦ refused "disk" "diskHealthMetrics.totalDiskUsageAvg is not a finite number"
    | ok total ↦ accepted (record { total_usage_percent = total })
  ]

  unfoldable pub map_disk : Option Json → GroupMapResult DiskStats
  map_disk raw = on_object raw "disk" "diskHealthMetrics is not an object" disk_fields

  unfoldable pub map_fans : Fields → List String → List ChassisFanStats × List ParseError
  map_fans raw [] = ([], [])
  map_fans raw (fan ∷ rest) =
      let (fans, errors) = map_fans raw rest in
      elim (read_optional_number raw (concat ("fan" ∷ fan ∷ "RpmAvg" ∷ []))) [
        | malformed ↦ (
          fans,
          parse_error "chassis" (concat ("fan" ∷ fan ∷ "RpmAvg is not a finite number" ∷ []))
              ∷ errors,
        )
        | ok none ↦ (fans, errors)
        | ok (some rpm) ↦ (record { fan = fan; rpm_avg = rpm } ∷ fans, errors)
      ]

  abbrev pub keep_psu :
      String
      → Option String × Option String × Option String
      → List ChassisPsuStats
      → List ChassisPsuStats
  keep_psu psu (none, none, none) psus = psus
  keep_psu psu (fan_status, input_status, output_status) psus =
      record {
        psu = psu;
        fan_status = fan_status;
        input_status = input_status;
        output_status = output_status;
      }
      ∷ psus

  unfoldable pub map_psus : Fields → List String → List ChassisPsuStats × List ParseError
  map_psus raw [] = ([], [])
  map_psus raw (psu ∷ rest) =
      let (psus, errors) = map_psus raw rest in
      elim (three (read_optional_string raw (concat ("psu" ∷ psu ∷ "FanStatus" ∷ [])))
        (read_optional_string raw (concat ("psu" ∷ psu ∷ "InputStatus" ∷ [])))
        (read_optional_string raw (concat ("psu" ∷ psu ∷ "OutputStatus" ∷ [])))) [
          | none ↦ (
            psus,
            parse_error "chassis" (concat ("psu" ∷ psu ∷ " status field is not a string" ∷ []))
                ∷ errors,
          )
          | some statuses ↦ (keep_psu psu statuses psus, errors)
        ]

  unfoldable pub chassis_fields : Fields → GroupMapResult ChassisStats
  chassis_fields raw =
      let (fans, fan_errors) = map_fans raw fan_keys in
      let (psus, psu_errors) = map_psus raw psu_keys in
      record {
        value = some (record { fans = fans; psus = psus });
        parse_errors = fan_errors ++ psu_errors;
      }

  unfoldable pub map_chassis : Option Json → GroupMapResult ChassisStats
  map_chassis raw =
      on_object raw "chassis" "chassisStatsHealthMetrics is not an object" chassis_fields

  abbrev pub both : Option String → Option String → Option (String × String)
  both (some a) (some b) = some (a, b)
  both _ _ = none

  unfoldable pub ha_fields : Fields → GroupMapResult HaStats
  ha_fields raw =
      elim (both (read_required_string raw "nodeStatus") (read_required_string raw "nodeType")) [
        | none ↦ refused "ha" "haHealthMetrics missing nodeStatus/nodeType"
        | some (node_status, node_type) ↦
            accepted (record { node_status = node_status; node_type = node_type })
      ]

  unfoldable pub map_ha : Option Json → GroupMapResult HaStats
  map_ha raw = on_object raw "ha" "haHealthMetrics is not an object" ha_fields

  unfoldable pub ra_vpn_fields : Fields → GroupMapResult RaVpnStats
  ra_vpn_fields raw =
      elim (three (read_optional_number raw "activeRavpnSessionsAvg")
        (read_optional_number raw "inactiveRavpnSessionsAvg")
        (read_optional_number raw "peakConcurRavpnSessions")) [
          | none ↦ refused "raVpn" "raVpnSessionHealthMetrics has a non-numeric field"
          | some (active, inactive, peak) ↦ accepted (record {
            active_sessions_avg = active;
            inactive_sessions_avg = inactive;
            peak_concurrent_sessions = peak;
          })
        ]

  unfoldable pub map_ra_vpn : Option Json → GroupMapResult RaVpnStats
  map_ra_vpn raw = on_object raw "raVpn" "raVpnSessionHealthMetrics is not an object" ra_vpn_fields
