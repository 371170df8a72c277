-- ===== src/Backends/Fmc/Adapter/Snapshot.antt =====
-- src/backends/fmc/adapter.ts, `fetchSnapshot`: one task per device and family, and what is made of the
-- results, which come in the order in which the tasks complete.
use ftd_metrics_exporter.Prelude.{
  ℕ, ◌*◌, ◌≤◌, ◌≡◌, refl, ap, ◌∙◌, length, length-append, String, false, List, [], ◌∷◌, ◌++◌,
  flatten, map, Option, none, some, str_eq, if◌then◌else◌, arith,
}
use ftd_metrics_exporter.Backends.Groups.{ParseError}
use ftd_metrics_exporter.Backends.Fmc.Discovery.{FmcDiscoveredDevice}
use ftd_metrics_exporter.Backends.Fmc.Map.{FmcMetricFamily, FmcFamilyMapResult}
use ftd_metrics_exporter.Backends.Fmc.Sizing.{warning_threshold, project_fmc_request_volume}
use ftd_metrics_exporter.Backends.Fmc.Merge.{
  DeviceHealthSnapshot, MergeFmcFamiliesResult, merge_fmc_families,
}
use ftd_metrics_exporter.Backends.Fmc.Merge.Laws.{merge_fmc_families-errors}

-- A request that is handed to the limiter.
pub record Task : Type 0 where
  pub device_id : String
  pub family : FmcMetricFamily

unfoldable pub device_tasks : (device_id : String) → List FmcMetricFamily → List Task
device_tasks device_id [] = []
device_tasks device_id (family ∷ families) =
    record { device_id = device_id; family = family } ∷ device_tasks device_id families

-- The two loops that push to `tasks`.
unfoldable pub all_tasks : List FmcDiscoveredDevice → List FmcMetricFamily → List Task
all_tasks [] families = []
all_tasks (device ∷ devices) families =
    device_tasks device.id families ++ all_tasks devices families

-- A task that is over, with its result.
pub record Completed : Type 0 where
  pub device_id : String
  pub result : FmcFamilyMapResult

-- `perDeviceResults.get(id)`, once the tasks are over in this order.
unfoldable pub per_device_results : (id : String) → List Completed → List FmcFamilyMapResult
per_device_results id [] = []
per_device_results id (c ∷ completed) =
    let rest = per_device_results id completed in
    if str_eq c.device_id id then c.result ∷ rest else rest

unfoldable pub merge_device : List Completed → FmcDiscoveredDevice → MergeFmcFamiliesResult
merge_device completed device =
    merge_fmc_families device.id device.name (per_device_results device.id completed)

abbrev pub keep :
    Option DeviceHealthSnapshot → List DeviceHealthSnapshot → List DeviceHealthSnapshot
keep none snapshots = snapshots
keep (some s) snapshots = s ∷ snapshots

-- `buildSnapshots`: the snapshots, and the errors that are handed to `onParseError`.
unfoldable pub build_snapshots :
    List Completed → List FmcDiscoveredDevice → List DeviceHealthSnapshot × List ParseError
build_snapshots completed [] = ([], [])
build_snapshots completed (device ∷ devices) =
    let merged = merge_device completed device in
    let (snapshots, errors) = build_snapshots completed devices in
    (keep merged.snapshot snapshots, merged.parse_errors ++ errors)

per_device_results-other :
    (id : String) (before after : List Completed) (c : Completed)
    → str_eq c.device_id id ≡ false
    → per_device_results id (before ++ (c ∷ after)) ≡ per_device_results id (before ++ after)
unfolding per_device_results
per_device_results-other id [] after c h = ground arith
per_device_results-other id (b ∷ before) after c h =
    ground (arith, per_device_results-other id before after c h)

-- What becomes of a device does not depend on the result of any task of another device, nor on when it completes.
pub merge_device-other :
    (device : FmcDiscoveredDevice) (before after : List Completed) (c : Completed)
    → str_eq c.device_id device.id ≡ false
    → merge_device (before ++ (c ∷ after)) device ≡ merge_device (before ++ after) device
unfolding merge_device
merge_device-other device before after c h =
    ap (merge_fmc_families device.id device.name)
      (per_device_results-other device.id before after c h)

-- The errors that are handed on are those of the results of each device, in the order of the devices.
pub build_snapshots-errors :
    (completed : List Completed) (devices : List FmcDiscoveredDevice)
    → (build_snapshots completed devices).1
      ≡ flatten (
          map
            (λ device. flatten (map (λ r. r.parse_errors) (per_device_results device.id completed)))
            devices)
unfolding build_snapshots merge_device flatten
build_snapshots-errors completed [] = refl
build_snapshots-errors completed (device ∷ devices) =
    ap (λ es. es ++ (build_snapshots completed devices).1)
      (merge_fmc_families-errors device.id device.name (per_device_results device.id completed))
    ∙ ap (λ es. flatten (map (λ r. r.parse_errors) (per_device_results device.id completed)) ++ es)
        (build_snapshots-errors completed devices)

device_tasks-length :
    (id : String) (families : List FmcMetricFamily)
    → length (device_tasks id families) ≡ length families
unfolding device_tasks
device_tasks-length id [] = refl
device_tasks-length id (f ∷ families) = omega (arith, device_tasks-length id families)

all_tasks-length :
    (devices : List FmcDiscoveredDevice) (families : List FmcMetricFamily)
    → length (all_tasks devices families) ≡ length devices * length families
unfolding all_tasks
all_tasks-length [] families = omega arith
all_tasks-length (d ∷ devices) families =
    length-append (device_tasks d.id families) (all_tasks devices families)
    ∙ omega (arith, device_tasks-length d.id families, all_tasks-length devices families)

-- Without a sizing warning, the tasks of the snapshots of one minute number at most 210, which is 70 percent of the FMC's 300 requests:
-- per snapshot there are as many tasks as the projection counts, and 60 / interval snapshots a minute.
pub project_fmc_request_volume-all_tasks :
    (devices : List FmcDiscoveredDevice) (families : List FmcMetricFamily)
    (poll_interval_seconds : ℕ)
    → project_fmc_request_volume (length devices) (length families) poll_interval_seconds ≡ none
    → length (all_tasks devices families) * 60 ≤ warning_threshold * poll_interval_seconds
unfolding project_fmc_request_volume
project_fmc_request_volume-all_tasks devices families poll_interval_seconds h =
    ground (arith, all_tasks-length devices families)
