-- ===== src/Backends/Fmc/Merge.antt =====
-- src/backends/fmc/map.ts, `mergeFmcFamilies`: the results of a device's families, as one snapshot.
pub mod Laws
pub mod Gathering
use ftd_metrics_exporter.Prelude.{
  String, Bool, true, false, not, ◌||◌, List, [], ◌∷◌, ◌++◌, Option, none, some, if◌then◌else◌,
}
use ftd_metrics_exporter.Prelude.Int.{ℤ, gt}
use ftd_metrics_exporter.Backends.Groups.{ParseError}
use ftd_metrics_exporter.Backends.Fmc.Map.{Groups, no_groups, FmcFamilyMapResult}

pub record DeviceHealthSnapshot : Type 0 where
  pub device_uid : String
  pub device_name : String
  pub window_start : Option ℤ
  pub window_end : Option ℤ
  pub groups : Groups

-- The variables of the loop.
pub record Merging : Type 0 where
  pub groups : Groups
  pub latest_end : Option ℤ
  pub paired_start : Option ℤ
  pub contributed : Bool
  pub parse_errors : List ParseError

-- `if (new !== undefined) old = new`
abbrev pub replaced_by : {A : Type 0} → Option A → Option A → Option A
replaced_by none old = old
replaced_by (some a) old = some a

abbrev pub is_present : {A : Type 0} → Option A → Bool
is_present none = false
is_present (some a) = true

unfoldable pub merge_groups : (new old : Groups) → Groups
merge_groups new old = record {
  cpu_group = replaced_by new.cpu_group old.cpu_group;
  memory_group = replaced_by new.memory_group old.memory_group;
  disk_group = replaced_by new.disk_group old.disk_group;
  chassis_group = replaced_by new.chassis_group old.chassis_group;
  ha_group = replaced_by new.ha_group old.ha_group;
  ra_vpn_group = replaced_by new.ra_vpn_group old.ra_vpn_group;
  tunnels_group = replaced_by new.tunnels_group old.tunnels_group;
  interfaces_group = replaced_by new.interfaces_group old.interfaces_group;
}

unfoldable pub contributes : Groups → Bool
contributes g =
    is_present g.cpu_group
    || is_present g.memory_group
    || is_present g.disk_group
    || is_present g.chassis_group
    || is_present g.ha_group
    || is_present g.ra_vpn_group
    || is_present g.tunnels_group
    || is_present g.interfaces_group

-- `end !== undefined && (latest === undefined || end > latest)`
abbrev pub is_later : (end latest : Option ℤ) → Bool
is_later none latest = false
is_later (some end) none = true
is_later (some end) (some latest) = gt end latest

unfoldable pub merge_step : FmcFamilyMapResult → Merging → Merging
merge_step result m = record {
  groups = merge_groups result.partial m.groups;
  latest_end = if is_later result.window_end m.latest_end then result.window_end else m.latest_end;
  paired_start =
      if is_later result.window_end m.latest_end then result.window_start else m.paired_start;
  contributed = m.contributed || contributes result.partial;
  parse_errors = m.parse_errors ++ result.parse_errors;
}

unfoldable pub merge_loop : List FmcFamilyMapResult → Merging → Merging
merge_loop [] m = m
merge_loop (result ∷ results) m = merge_loop results (merge_step result m)

abbrev pub unmerged : Merging
unmerged = record {
  groups = no_groups;
  latest_end = none;
  paired_start = none;
  contributed = false;
  parse_errors = [];
}

pub record MergeFmcFamiliesResult : Type 0 where
  pub snapshot : Option DeviceHealthSnapshot
  pub parse_errors : List ParseError

unfoldable pub merge_fmc_families :
    (device_uid device_name : String) → List FmcFamilyMapResult → MergeFmcFamiliesResult
merge_fmc_families device_uid device_name family_results =
    let m = merge_loop family_results unmerged in
    record {
      snapshot =
          if not m.contributed
          then none
          else some (record {
            device_uid = device_uid;
            device_name = device_name;
            window_start = m.paired_start;
            window_end = m.latest_end;
            groups = m.groups;
          });
      parse_errors = m.parse_errors;
    }
