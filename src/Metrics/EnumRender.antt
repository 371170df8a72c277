-- ===== src/Metrics/EnumRender.antt =====
-- src/metrics/enum-render.ts: the classifiers of upstream values, and from src/metrics/collector.ts
-- the two state sets that they feed.
use ftd_metrics_exporter.Prelude.{
  ℕ, String, List, Option, none, some, includes, str_eq, if◌then◌else◌, map,
}
use ftd_metrics_exporter.Metrics.Enums.{
  lowercase_enum_label, tunnel_state_label, known_interface_type_values, redundancy_mode_values,
  config_state_values, conflict_detection_state_values, device_license_status_values,
  device_compliance_status_values, ha_role_values, ha_node_status_values, ha_node_type_values,
  tunnel_state_values, license_reg_status_values, license_auth_status_values,
  certificate_status_values,
}

pub data BinaryEnumResult : Type 0 where
  absent : BinaryEnumResult
  recognized : ℕ → BinaryEnumResult
  unrecognized : String → BinaryEnumResult

unfoldable pub classify_binary_enum : Option String → BinaryEnumResult
classify_binary_enum none = absent
classify_binary_enum (some raw) =
    if str_eq raw "UP"
    then recognized 1
    else if str_eq raw "DOWN"
    then recognized 0
    else unrecognized raw

unfoldable pub classify_connectivity_state : Option String → BinaryEnumResult
classify_connectivity_state none = absent
classify_connectivity_state (some raw) =
    if str_eq raw "ONLINE"
    then recognized 1
    else if str_eq raw "UNREACHABLE"
    then recognized 0
    else unrecognized raw

-- `StateSetResult`, `InfoEnumResult` and `PassthroughEnumResult`: `label` is `activeLabel` of the
-- first.
pub record EnumResult : Type 0 where
  pub label : String
  pub unrecognized_raw_value : Option String

unfoldable pub classify_ha_node_status : String → EnumResult
classify_ha_node_status raw =
    if includes ha_node_status_values raw
    then record { label = lowercase_enum_label raw; unrecognized_raw_value = none }
    else record { label = "unknown"; unrecognized_raw_value = some raw }

unfoldable pub classify_tunnel_state : String → EnumResult
classify_tunnel_state raw =
    if includes tunnel_state_values raw
    then record { label = tunnel_state_label raw; unrecognized_raw_value = none }
    else record { label = "unknown"; unrecognized_raw_value = some raw }

unfoldable pub classify_interface_type : String → EnumResult
classify_interface_type raw =
    if includes known_interface_type_values raw
    then record { label = raw; unrecognized_raw_value = none }
    else record { label = raw; unrecognized_raw_value = some raw }

-- The body that the classifiers of informational labels share, over their vocabulary.
unfoldable pub classify_info : List String → String → EnumResult
classify_info values raw =
    if includes values raw
    then record { label = lowercase_enum_label raw; unrecognized_raw_value = none }
    else record { label = "unknown"; unrecognized_raw_value = some raw }

unfoldable pub classify_ha_node_type : String → EnumResult
classify_ha_node_type raw = classify_info ha_node_type_values raw

unfoldable pub classify_redundancy_mode : String → EnumResult
classify_redundancy_mode raw = classify_info redundancy_mode_values raw

unfoldable pub classify_license_reg_status : String → EnumResult
classify_license_reg_status raw = classify_info license_reg_status_values raw

unfoldable pub classify_license_auth_status : String → EnumResult
classify_license_auth_status raw = classify_info license_auth_status_values raw

unfoldable pub classify_certificate_status : String → EnumResult
classify_certificate_status raw = classify_info certificate_status_values raw

unfoldable pub classify_config_state : String → EnumResult
classify_config_state raw = classify_info config_state_values raw

unfoldable pub classify_conflict_detection_state : String → EnumResult
classify_conflict_detection_state raw = classify_info conflict_detection_state_values raw

unfoldable pub classify_device_license_status : String → EnumResult
classify_device_license_status raw = classify_info device_license_status_values raw

unfoldable pub classify_device_compliance_status : String → EnumResult
classify_device_compliance_status raw = classify_info device_compliance_status_values raw

unfoldable pub classify_ha_role : String → EnumResult
classify_ha_role raw = classify_info ha_role_values raw

-- The series of a state set: a label and its value for each state.
unfoldable pub ha_node_status_series : String → List (String × ℕ)
ha_node_status_series raw =
    let active = (classify_ha_node_status raw).label in
    map
      (λ value.
        (lowercase_enum_label value, if str_eq (lowercase_enum_label value) active then 1 else 0))
      ha_node_status_values

unfoldable pub s2s_tunnel_state_series : String → List (String × ℕ)
s2s_tunnel_state_series raw =
    let active = (classify_tunnel_state raw).label in
    map
      (λ value.
        (tunnel_state_label value, if str_eq (tunnel_state_label value) active then 1 else 0))
      tunnel_state_values
