-- ===== src/Backends/Groups/Laws.antt =====
-- What the mappers give on every input.
use ftd_metrics_exporter.Prelude.{
  ◌≡◌, ◌≢◌, refl, ◌⊎◌, inl, String, [], Option, none, some, length, arith,
}
use ftd_metrics_exporter.Prelude.Json.{Json, Fields, obj}
use ftd_metrics_exporter.Backends.Groups.{
  GroupMapResult, on_object, read_triple, map_cpu, map_memory, disk_fields, map_disk, ha_fields,
  map_ha, ra_vpn_fields, map_ra_vpn,
}

-- An absent group gives nothing; a group that is there gives a value or one error, never both and
-- never neither.
abbrev pub IsClear : {T : Type 0} → Option Json → GroupMapResult T → Type 0
IsClear raw r =
    ((raw ≡ none) × (r.value ≡ none) × (r.parse_errors ≡ []))
    ⊎ ((raw ≢ none) × (r.value ≢ none) × (r.parse_errors ≡ []))
    ⊎ ((raw ≢ none) × (r.value ≡ none) × (length r.parse_errors ≡ 1))

-- A value or one error.
abbrev IsDecided : {T : Type 0} → GroupMapResult T → Type 0
IsDecided r =
    ((r.value ≢ none) × (r.parse_errors ≡ [])) ⊎ ((r.value ≡ none) × (length r.parse_errors ≡ 1))

module _ (device_uid : String) where
  on_object-IsClear :
      {T : Type 0} (raw : Option Json) (group message : String) (f : Fields → GroupMapResult T)
      → ((fields : Fields) → IsDecided (f fields))
      → IsClear raw (on_object device_uid raw group message f)
  unfolding on_object
  on_object-IsClear none group message f h = inl (refl, refl, refl)
  on_object-IsClear (some (obj fields)) group message f h = ground (arith, h fields)
  on_object-IsClear (some _) group message f h = ground arith

  read_triple-IsDecided :
      (fields : Fields) (group : String) → IsDecided (read_triple device_uid fields group)
  unfolding read_triple
  read_triple-IsDecided fields group = ground arith

  disk_fields-IsDecided : (fields : Fields) → IsDecided (disk_fields device_uid fields)
  unfolding disk_fields
  disk_fields-IsDecided fields = ground arith

  ha_fields-IsDecided : (fields : Fields) → IsDecided (ha_fields device_uid fields)
  unfolding ha_fields
  ha_fields-IsDecided fields = ground arith

  ra_vpn_fields-IsDecided : (fields : Fields) → IsDecided (ra_vpn_fields device_uid fields)
  unfolding ra_vpn_fields
  ra_vpn_fields-IsDecided fields = ground arith

  -- For CPU, memory, disk, HA and RA VPN and any JSON value in the place of the group: an absent group
  -- gives neither a value nor an error, and a group that is there gives either a value and no error, or
  -- no value and exactly one error; a malformed group is never taken for an absent one.
  pub groups-IsClear :
      (raw : Option Json)
      → IsClear raw (map_cpu device_uid raw)
        × IsClear raw (map_memory device_uid raw)
        × IsClear raw (map_disk device_uid raw)
        × IsClear raw (map_ha device_uid raw)
        × IsClear raw (map_ra_vpn device_uid raw)
  unfolding map_cpu map_memory map_disk map_ha map_ra_vpn
  groups-IsClear raw = (
    on_object-IsClear raw _ _ _ (λ f. read_triple-IsDecided f "cpu"),
    on_object-IsClear raw _ _ _ (λ f. read_triple-IsDecided f "memory"),
    on_object-IsClear raw _ _ _ disk_fields-IsDecided,
    on_object-IsClear raw _ _ _ ha_fields-IsDecided,
    on_object-IsClear raw _ _ _ ra_vpn_fields-IsDecided,
  )
