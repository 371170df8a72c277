-- ===== src/Backends/Groups/Chassis.antt =====
-- What the mapper of the chassis gives: src/backends/shared/groups.ts, `mapChassis`.
use ftd_metrics_exporter.Prelude.{
  ◌+◌, ◌≤◌, ◌≡◌, ◌≢◌, refl, ◌⊎◌, String, true, List, [], ◌∷◌, none, some, length, length-append,
  arith, All,
}
use ftd_metrics_exporter.Prelude.Text.{concat}
use ftd_metrics_exporter.Prelude.Json.{Number, Fields, is_finite}
use ftd_metrics_exporter.Backends.Fields.{FieldRead, ok, read_optional_number}
use ftd_metrics_exporter.Backends.Groups.{
  ChassisPsuStats, ChassisStats, map_fans, map_psus, chassis_fields, fan_keys, psu_keys,
}

-- A power supply for which at least one status was read.
abbrev pub IsReported : ChassisPsuStats → Type 0
IsReported p = (p.fan_status ≢ none) ⊎ (p.input_status ≢ none) ⊎ (p.output_status ≢ none)

abbrev IsFiniteRead : FieldRead Number → Type 0
IsFiniteRead (ok (some n)) = is_finite n ≡ true
IsFiniteRead _ = Unit

read_optional_number-IsFinite :
    (fields : Fields) (key : String) → IsFiniteRead (read_optional_number fields key)
unfolding read_optional_number
read_optional_number-IsFinite fields key = ground arith

module _ (device_uid : String) (raw : Fields) where
  map_fans-IsFinite :
      (keys : List String)
      → All (λ f. is_finite f.rpm_avg ≡ true) (map_fans device_uid raw keys).0
        × (length (map_fans device_uid raw keys).0 + length (map_fans device_uid raw keys).1
            ≤ length keys)
  unfolding map_fans
  map_fans-IsFinite [] = (tt, omega arith)
  map_fans-IsFinite (k ∷ ks) = ground (
    arith,
    map_fans-IsFinite ks,
    read_optional_number-IsFinite raw (concat ("fan" ∷ k ∷ "RpmAvg" ∷ [])),
  )

  map_psus-IsReported :
      (keys : List String)
      → All IsReported (map_psus device_uid raw keys).0
        × (length (map_psus device_uid raw keys).0 + length (map_psus device_uid raw keys).1
            ≤ length keys)
  unfolding map_psus
  map_psus-IsReported [] = (tt, omega arith)
  map_psus-IsReported (k ∷ ks) = ground (arith, map_psus-IsReported ks)

  -- From any object: every fan has a finite speed and every power supply a status; each of the four
  -- fans and two power supplies gives at most one of a reading and an error; and the group has a value
  -- also if some of them are malformed.
  pub chassis_fields_lem :
      (c : ChassisStats) × ((chassis_fields device_uid raw).value ≡ some c)
      × All (λ f. is_finite f.rpm_avg ≡ true) c.fans
      × All IsReported c.psus
      × (length c.fans + length c.psus + length (chassis_fields device_uid raw).parse_errors ≤ 6)
  unfolding chassis_fields
  chassis_fields_lem =
      let (fans, few_fans) = map_fans-IsFinite fan_keys in
      let (psus, few_psus) = map_psus-IsReported psu_keys in
      (
        record {
          fans = (map_fans device_uid raw fan_keys).0;
          psus = (map_psus device_uid raw psu_keys).0;
        },
        refl,
        fans,
        psus,
        omega (
          arith,
          length-append (map_fans device_uid raw fan_keys).1 (map_psus device_uid raw psu_keys).1,
        ),
      )
