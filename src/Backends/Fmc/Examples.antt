-- ===== src/Backends/Fmc/Examples.antt =====
-- The theorems about the FMC adapter at concrete responses.
use ftd_metrics_exporter.Prelude.{
  ℕ, zero, ◌*◌, ◌≤◌, ◌≡◌, refl, ◌⊎◌, String, List, [], ◌∷◌, Option, none, some, All, Any, length,
  map,
}
use Prim.Native.String
use ftd_metrics_exporter.Prelude.Int.{ℤ, pos}
use ftd_metrics_exporter.Prelude.Text.{split_on, concat}
use ftd_metrics_exporter.Prelude.Json.{
  Json, str, num, arr, obj, nil, cons, Fields, end, field, whole,
}
use ftd_metrics_exporter.Http.Errors.{http, classify_status_code}
use ftd_metrics_exporter.Backends.Certificates.{Device, map_enrolled}
use ftd_metrics_exporter.Backends.Certificates.Laws.{
  AreDistinct, entry_key, map_enrolled-AreDistinct,
}
use ftd_metrics_exporter.Backends.Fmc.Discovery.{FmcDiscoveredDevice}
use ftd_metrics_exporter.Backends.Fmc.Map.{
  FmcMetricFamily, no_groups, FmcFamilyMapResult, map_body, nothing,
}
use ftd_metrics_exporter.Backends.Fmc.Map.Laws.{IsOwn, map_body-IsOwn}
use ftd_metrics_exporter.Backends.Fmc.Merge.{
  DeviceHealthSnapshot, merge_groups, contributes, merge_step, merge_loop, merge_fmc_families,
}
use ftd_metrics_exporter.Backends.Fmc.Merge.Laws.{IsAtMost, IsWindowOf, merge_fmc_families-window}
use ftd_metrics_exporter.Backends.Fmc.Filter.{fits_hex, is_uuid, filter_text, build_fmc_filter}
use ftd_metrics_exporter.Backends.Fmc.Filter.Laws.{build_fmc_filter-split}
use ftd_metrics_exporter.Backends.Fmc.Sizing.{warning_threshold, project_fmc_request_volume}
use ftd_metrics_exporter.Backends.Fmc.Adapter.{Outcome, returns, throws, fetch_with_reauth}
use ftd_metrics_exporter.Backends.Fmc.Adapter.Laws.{Runs, IsCounted, fetch_with_reauth-Runs}
use ftd_metrics_exporter.Backends.Fmc.Adapter.Coverage.{Covers, build_snapshots-Covers}
use ftd_metrics_exporter.Backends.Fmc.Adapter.Snapshot.{
  Completed, all_tasks, build_snapshots, project_fmc_request_volume-all_tasks,
}

abbrev no_date : String → Option ℤ
no_date text = none

abbrev no_fields : ℤ → List ℕ
no_fields date = []

-- `{"items": [{"id": "d1", "cpuHealthMetrics": {"linaUsageAvg": 7}}]}`
abbrev cpu_body : Fields
cpu_body =
    field "items"
      (arr (
        cons
          (obj (
            field "id" (str "d1")
              (field "cpuHealthMetrics" (obj (field "linaUsageAvg" (num (whole 7)) end)) end)))
          nil))
      end

map_body-IsOwn_example :
    IsOwn no_date "d1" FmcMetricFamily.cpu cpu_body
      (map_body no_date "d1" FmcMetricFamily.cpu cpu_body)
map_body-IsOwn_example = map_body-IsOwn no_date "d1" FmcMetricFamily.cpu cpu_body

-- The results of two families: CPU for a window that ends at 2000, and nothing for a window that ends at 1000.
abbrev newer : FmcFamilyMapResult
newer = record {
  window_start = none;
  window_end = some (pos 2000);
  partial = record no_groups {
    cpu_group = some (record { lina = none; snort = none; system = none });
  };
  parse_errors = [];
}

abbrev older : FmcFamilyMapResult
older = record {
  window_start = some (pos 700);
  window_end = some (pos 1000);
  partial = no_groups;
  parse_errors = [];
}

abbrev two_results : List FmcFamilyMapResult
two_results = newer ∷ older ∷ []

abbrev merged : DeviceHealthSnapshot
merged = record {
  device_uid = "d1";
  device_name = "edge";
  window_start = none;
  window_end = some (pos 2000);
  groups = newer.partial;
}

two_results_merge : (merge_fmc_families "d1" "edge" two_results).snapshot ≡ some merged
unfolding merge_fmc_families merge_loop merge_step merge_groups contributes
two_results_merge = refl

merge_fmc_families-window_example :
    All (λ r. IsAtMost r.window_end merged.window_end) two_results
    × (Any (IsWindowOf merged.window_start merged.window_end) two_results
        ⊎ ((merged.window_start ≡ none) × (merged.window_end ≡ none)))
merge_fmc_families-window_example =
    merge_fmc_families-window "d1" "edge" two_results merged two_results_merge

abbrev uuid : String
uuid = "01234567-89ab-cdef-0123-456789ABCDEF"

abbrev filter : String
filter = "device_uuid:01234567-89ab-cdef-0123-456789ABCDEF;metric:CPU;timeRange:5m"

filter_built : build_fmc_filter uuid FmcMetricFamily.cpu "5m" ≡ some filter
unfolding build_fmc_filter is_uuid fits_hex filter_text concat
filter_built = refl

build_fmc_filter-split_example :
    split_on b';' filter
    ≡ String.◌++◌ "device_uuid:" uuid
      ∷ String.◌++◌ "metric:" "CPU"
      ∷ String.◌++◌ "timeRange:" "5m"
      ∷ []
build_fmc_filter-split_example =
    build_fmc_filter-split uuid FmcMetricFamily.cpu "5m" filter refl filter_built

-- The first fetch is refused with 401, the second succeeds.
abbrev one_refusal : (before : ℕ) → (token : String) → Outcome String
one_refusal zero token = throws (http (classify_status_code 401 none))
one_refusal _ token = returns "{}"

abbrev new_token : (stale : String) → Outcome String
new_token stale = returns "fresh"

fetch_with_reauth-Runs_example :
    Runs
      (returns "stale")
      one_refusal
      new_token
      (fetch_with_reauth (returns "stale") one_refusal new_token)
    × IsCounted
        (returns "stale")
        one_refusal
        new_token
        (fetch_with_reauth (returns "stale") one_refusal new_token).1
fetch_with_reauth-Runs_example = fetch_with_reauth-Runs (returns "stale") one_refusal new_token

abbrev device : String → FmcDiscoveredDevice
device id = record { id = id; name = id; is_connected = none }

abbrev two_devices : List FmcDiscoveredDevice
two_devices = device "d1" ∷ device "d2" ∷ []

-- The tasks of the second device fail.
abbrev completed : List Completed
completed =
    record { device_id = "d2"; result = nothing [] }
    ∷ record { device_id = "d1"; result = newer }
    ∷ []

build_snapshots-Covers_example :
    Covers completed two_devices (build_snapshots completed two_devices).0
build_snapshots-Covers_example = build_snapshots-Covers completed two_devices

abbrev two_families : List FmcMetricFamily
two_families = FmcMetricFamily.cpu ∷ FmcMetricFamily.mem ∷ []

project_fmc_request_volume-all_tasks_example :
    length (all_tasks two_devices two_families) * 60 ≤ warning_threshold * 60
unfolding project_fmc_request_volume
project_fmc_request_volume-all_tasks_example =
    project_fmc_request_volume-all_tasks two_devices two_families 60 refl

-- Two certificates without a name.
abbrev certificates : Option Json
certificates = some (
    arr (
      cons
        (obj (
          field "caCertificateStatus" (str "AVAILABLE")
            (field "caCertExpiryDate" (str "2030-01-01T00:00Z") end)))
        (cons
          (obj (
            field "caCertificateStatus" (str "AVAILABLE")
              (field "caCertExpiryDate" (str "2031-01-01T00:00Z") end)))
          nil)))

abbrev dated : String → Option ℤ
dated text = some (pos 0)

abbrev new_year : ℤ → List ℕ
new_year date = 2030 ∷ 1 ∷ 1 ∷ 0 ∷ 0 ∷ 0 ∷ []

abbrev edge : Device
edge = record { device_uid = "d1"; device_name = "edge" }

map_enrolled-AreDistinct_example :
    AreDistinct
      (map (entry_key dated new_year edge) (map_enrolled dated new_year edge certificates).0)
map_enrolled-AreDistinct_example = map_enrolled-AreDistinct dated new_year edge certificates

abbrev empty_response : Json
empty_response = obj (field "items" (arr nil) end)

abbrev parsed : String → Option Json
parsed text = some empty_response
