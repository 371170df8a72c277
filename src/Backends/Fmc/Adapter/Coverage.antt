-- ===== src/Backends/Fmc/Adapter/Coverage.antt =====
-- src/backends/fmc/adapter.ts, `fetchSnapshot`: which devices have a snapshot, and what is in it, in terms of the tasks.
use ftd_metrics_exporter.Prelude.{
  ◌≡◌, ◌≢◌, refl, subst, String, Bool, true, List, [], ◌∷◌, Option, none, some, ◌⊎◌, inl, inr, All,
  All-weaken, Any, arith, str_eq, eq_iff, Bool-cases, if◌then◌else◌,
}
use ftd_metrics_exporter.Backends.Fmc.Discovery.{FmcDiscoveredDevice}
use ftd_metrics_exporter.Backends.Fmc.Map.{Groups, no_groups, FmcFamilyMapResult}
use ftd_metrics_exporter.Backends.Fmc.Merge.{
  DeviceHealthSnapshot, replaced_by, merge_groups, merge_loop, unmerged, merge_fmc_families,
}
use ftd_metrics_exporter.Backends.Fmc.Merge.Laws.{IsSilent, merge_fmc_families-IsSilent}
use ftd_metrics_exporter.Backends.Fmc.Merge.Gathering.{
  IsMerged, merge_loop-IsMerged, merge_loop-contributed, contributes-no_groups,
}
use ftd_metrics_exporter.Backends.Fmc.Adapter.Snapshot.{
  Completed, per_device_results, merge_device, keep, build_snapshots,
}

-- One group of a device's snapshot: if it is missing, no task of the device gave it, and otherwise it is what one of them gave.
abbrev pub IsOwn : {A : Type 0} → (Groups → Option A) → String → List Completed → Option A → Type 0
IsOwn f id completed none = All (λ c. (c.device_id ≢ id) ⊎ (f c.result.partial ≡ none)) completed
IsOwn f id completed (some a) =
    Any (λ c. (c.device_id ≡ id) × (f c.result.partial ≡ some a)) completed

-- A snapshot is the device's, and so are its groups.
pub record IsOf (completed : List Completed) (device : FmcDiscoveredDevice)
    (s : DeviceHealthSnapshot) : Type 0 where
  pub uid : s.device_uid ≡ device.id
  pub name : s.device_name ≡ device.name
  pub cpu : IsOwn (λ g. g.cpu_group) device.id completed s.groups.cpu_group
  pub memory : IsOwn (λ g. g.memory_group) device.id completed s.groups.memory_group
  pub disk : IsOwn (λ g. g.disk_group) device.id completed s.groups.disk_group
  pub chassis : IsOwn (λ g. g.chassis_group) device.id completed s.groups.chassis_group
  pub ha : IsOwn (λ g. g.ha_group) device.id completed s.groups.ha_group
  pub ra_vpn : IsOwn (λ g. g.ra_vpn_group) device.id completed s.groups.ra_vpn_group
  pub tunnels : IsOwn (λ g. g.tunnels_group) device.id completed s.groups.tunnels_group
  pub interfaces : IsOwn (λ g. g.interfaces_group) device.id completed s.groups.interfaces_group

-- The snapshots of the devices, in the devices' order: a device has one snapshot, its own, if one of its tasks gave a group, and none otherwise.
pub data Covers (completed : List Completed)
    : List FmcDiscoveredDevice → List DeviceHealthSnapshot → Type 0 where
  done : Covers completed [] []
  covered :
      {device : FmcDiscoveredDevice} {s : DeviceHealthSnapshot} {devices : List FmcDiscoveredDevice}
      {ss : List DeviceHealthSnapshot}
      → Any (λ c. (c.device_id ≡ device.id) × (c.result.partial ≢ no_groups)) completed
      → IsOf completed device s
      → Covers completed devices ss
      → Covers completed (device ∷ devices) (s ∷ ss)
  left_out :
      {device : FmcDiscoveredDevice} {devices : List FmcDiscoveredDevice}
      {ss : List DeviceHealthSnapshot}
      → All (λ c. (c.device_id ≢ device.id) ⊎ (c.result.partial ≡ no_groups)) completed
      → Covers completed devices ss
      → Covers completed (device ∷ devices) ss

module _ (P : FmcFamilyMapResult → Type 0) (id : String) where
  abbrev taken : Completed → Bool → List Completed → List FmcFamilyMapResult
  taken c b completed =
      if b then c.result ∷ per_device_results id completed else per_device_results id completed

  per_device_results-All :
      (completed : List Completed)
      → All P (per_device_results id completed)
      → All (λ c. (c.device_id ≢ id) ⊎ P c.result) completed
  unfolding per_device_results
  per_device_results-All [] h = tt
  per_device_results-All (c ∷ completed) h = elim (Bool-cases (str_eq c.device_id id)) [
    | inl e ↦
        let (here, rest) = subst (λ b. All P (taken c b completed)) e h in
        (inr here, per_device_results-All completed rest)
    | inr e ↦ (
      inl (ground (arith, e, eq_iff c.device_id id)),
      per_device_results-All completed (subst (λ b. All P (taken c b completed)) e h),
    )
  ]

  per_device_results-Any :
      (completed : List Completed)
      → Any P (per_device_results id completed)
      → Any (λ c. (c.device_id ≡ id) × P c.result) completed
  unfolding per_device_results
  per_device_results-Any [] h = absurd h
  per_device_results-Any (c ∷ completed) h = elim (Bool-cases (str_eq c.device_id id)) [
    | inl e ↦ elim (subst (λ b. Any P (taken c b completed)) e h) [
      | inl here ↦ inl (ground (arith, e, eq_iff c.device_id id), here)
      | inr rest ↦ inr (per_device_results-Any completed rest)
    ]
    | inr e ↦ inr (per_device_results-Any completed (subst (λ b. Any P (taken c b completed)) e h))
  ]

IsMerged-IsOwn :
    {A : Type 0} (f : Groups → Option A) (id : String) (completed : List Completed) (o : Option A)
    → IsMerged f none (per_device_results id completed) o
    → IsOwn f id completed o
IsMerged-IsOwn f id completed none (e, all) =
    per_device_results-All (λ r. f r.partial ≡ none) id completed all
IsMerged-IsOwn f id completed (some a) (inl e) = absurd cc
IsMerged-IsOwn f id completed (some a) (inr any) =
    per_device_results-Any (λ r. f r.partial ≡ some a) id completed any

-- What a snapshot of a merge is.
merge_fmc_families-some :
    (device : FmcDiscoveredDevice) (results : List FmcFamilyMapResult) (s : DeviceHealthSnapshot)
    → (merge_fmc_families device.id device.name results).snapshot ≡ some s
    → ((merge_loop results unmerged).contributed ≡ true)
      × (s.device_uid ≡ device.id)
      × (s.device_name ≡ device.name)
      × ((merge_loop results unmerged).groups ≡ s.groups)
unfolding merge_fmc_families
merge_fmc_families-some device results s h = ground arith

merge_device-IsOf :
    (completed : List Completed) (device : FmcDiscoveredDevice) (s : DeviceHealthSnapshot)
    → (merge_device completed device).snapshot ≡ some s
    → IsOf completed device s
unfolding merge_device merge_groups
merge_device-IsOf completed device s h =
    let (c, u, n, g) =
      merge_fmc_families-some device (per_device_results device.id completed) s h in
    record {
      uid = u;
      name = n;
      cpu = own (λ g. g.cpu_group) (λ a b. refl) refl g;
      memory = own (λ g. g.memory_group) (λ a b. refl) refl g;
      disk = own (λ g. g.disk_group) (λ a b. refl) refl g;
      chassis = own (λ g. g.chassis_group) (λ a b. refl) refl g;
      ha = own (λ g. g.ha_group) (λ a b. refl) refl g;
      ra_vpn = own (λ g. g.ra_vpn_group) (λ a b. refl) refl g;
      tunnels = own (λ g. g.tunnels_group) (λ a b. refl) refl g;
      interfaces = own (λ g. g.interfaces_group) (λ a b. refl) refl g;
    }
  where
    own :
        {A : Type 0} (f : Groups → Option A)
        → ((new old : Groups) → f (merge_groups new old) ≡ replaced_by (f new) (f old))
        → f no_groups ≡ none
        → (merge_loop (per_device_results device.id completed) unmerged).groups ≡ s.groups
        → IsOwn f device.id completed (f s.groups)
    own f m z g =
        let results : List FmcFamilyMapResult = per_device_results device.id completed in
        IsMerged-IsOwn f device.id completed (f s.groups) (
          subst (λ gr. IsMerged f none results (f gr)) g
            (subst (λ o. IsMerged f o results (f (merge_loop results unmerged).groups)) z
              (merge_loop-IsMerged f m results unmerged)))

cover :
    (completed : List Completed) (device : FmcDiscoveredDevice) (devices : List FmcDiscoveredDevice)
    (ss : List DeviceHealthSnapshot) (o : Option DeviceHealthSnapshot)
    → (merge_device completed device).snapshot ≡ o
    → Covers completed devices ss
    → Covers completed (device ∷ devices) (keep o ss)
unfolding merge_device
cover completed device devices ss none e rest =
    left_out
      (per_device_results-All (λ r. r.partial ≡ no_groups) device.id completed
        (All-weaken IsSilent (λ r. r.partial ≡ no_groups) (λ r. contributes-no_groups r.partial)
          (per_device_results device.id completed)
          ((merge_fmc_families-IsSilent device.id device.name
              (per_device_results device.id completed)).0
            e)))
      rest
cover completed device devices ss (some s) e rest =
    covered
      (per_device_results-Any (λ r. r.partial ≢ no_groups) device.id completed
        (elim (merge_loop-contributed (per_device_results device.id completed) unmerged
          (merge_fmc_families-some device (per_device_results device.id completed) s e).0) [
            | inl absent ↦ absurd cc
            | inr any ↦ any
          ]))
      (merge_device-IsOf completed device s e) rest

-- Whatever the order in which the tasks complete and whatever they give, the snapshots are, in the order of the devices, one for each
-- device of which some task gave a group, with the device's id and name, and none for any other. Each group of a snapshot
-- is what a task of that device gave, and it is missing only if none of the device's tasks gave it.
pub build_snapshots-Covers :
    (completed : List Completed) (devices : List FmcDiscoveredDevice)
    → Covers completed devices (build_snapshots completed devices).0
unfolding build_snapshots
build_snapshots-Covers completed [] = done
build_snapshots-Covers completed (device ∷ devices) =
    cover completed device devices _ (merge_device completed device).snapshot refl
      (build_snapshots-Covers completed devices)
