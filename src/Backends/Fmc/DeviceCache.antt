-- ===== src/Backends/Fmc/DeviceCache.antt =====
-- src/backends/fmc/discovery.ts, `createFmcDiscovery`: the list of devices that discovery gave last.
-- `in_flight` says that a discovery runs; when its fetch settles, the discovery is over and all who
-- wait for it get the list in the cache. The callbacks of the metrics are taken to return.
use ftd_metrics_exporter.Prelude.{
  ℕ, ◌≡◌, Bool, true, false, List, [], Option, none, some, if◌then◌else◌, arith,
}
use ftd_metrics_exporter.Backends.Fmc.Discovery.{FmcDiscoveredDevice}
use ftd_metrics_exporter.Backends.RefreshCache.{
  RefreshCache, create_refresh_cache, Called, joined, not_due, started, is_due, refresh_if_due,
  get_cached,
}
use ftd_metrics_exporter.Backends.RefreshCache as RefreshCache

pub record FmcDeviceDiscovery : Type 0 where
  pub interval_ms : ℕ
  pub cached_devices : List FmcDiscoveredDevice
  pub last_success_at : Option ℕ
  pub in_flight : Bool

-- How a call of `getDevices` goes on.
pub data Reply : Type 0 where
  joins starts : Reply
  resolves : List FmcDiscoveredDevice → Reply

unfoldable pub create_fmc_discovery : ℕ → FmcDeviceDiscovery
create_fmc_discovery interval_ms = record {
  interval_ms = interval_ms;
  cached_devices = [];
  last_success_at = none;
  in_flight = false;
}

unfoldable pub get_devices : FmcDeviceDiscovery → (now : ℕ) → FmcDeviceDiscovery × Reply
get_devices d now =
    if d.in_flight
    then (d, joins)
    else if is_due d.last_success_at d.interval_ms now
    then (record d { in_flight = true }, starts)
    else (d, resolves d.cached_devices)

-- The end of `runDiscovery`, with the devices that all who wait get.
unfoldable pub discovered :
    FmcDeviceDiscovery
    → List FmcDiscoveredDevice
    → (now : ℕ) → FmcDeviceDiscovery × List FmcDiscoveredDevice
discovered d devices now =
    (record d { cached_devices = devices; last_success_at = some now; in_flight = false }, devices)

unfoldable pub failed : FmcDeviceDiscovery → FmcDeviceDiscovery × List FmcDiscoveredDevice
failed d = (record d { in_flight = false }, d.cached_devices)

-- The refresh cache of the devices that a discovery is.
abbrev pub as_cache : FmcDeviceDiscovery → RefreshCache (List FmcDiscoveredDevice)
as_cache d = record {
  interval_ms = d.interval_ms;
  cached = d.cached_devices;
  last_success_at = d.last_success_at;
  in_flight = d.in_flight;
}

abbrev pub reply_of : RefreshCache (List FmcDiscoveredDevice) × Called → Reply
reply_of (c, joined) = joins
reply_of (c, not_due) = resolves (get_cached c)
reply_of (c, started) = starts

-- The discovery of devices is the shared refresh cache over the list of devices, with no device to
-- begin with: it starts, joins and skips a fetch exactly when that does, a fetch that succeeds or
-- fails leaves both in the same state, and the devices that a caller gets are those in the cache.
pub get_devices-refresh_if_due :
    (d : FmcDeviceDiscovery) (devices : List FmcDiscoveredDevice) (interval_ms now : ℕ)
    → (as_cache (create_fmc_discovery interval_ms) ≡ create_refresh_cache interval_ms [])
      × (as_cache (get_devices d now).0 ≡ (refresh_if_due (as_cache d) now).0)
      × ((get_devices d now).1 ≡ reply_of (refresh_if_due (as_cache d) now))
      × (as_cache (discovered d devices now).0 ≡ RefreshCache.fetched (as_cache d) devices now)
      × ((discovered d devices now).1 ≡ get_cached (as_cache (discovered d devices now).0))
      × (as_cache (failed d).0 ≡ RefreshCache.failed (as_cache d))
      × ((failed d).1 ≡ get_cached (as_cache (failed d).0))
unfolding create_fmc_discovery create_refresh_cache get_devices refresh_if_due discovered
    RefreshCache.fetched failed RefreshCache.failed get_cached
get_devices-refresh_if_due d devices interval_ms now = ground arith
