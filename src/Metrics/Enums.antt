-- ===== src/Metrics/Enums.antt =====
-- src/domain/enums.ts: the vocabularies of the upstream enumerations, and their labels.
-- `toLowerCase` is given on ASCII letters; labels are only made of values of these vocabularies and,
-- in the diagnostics, of unrecognised values, for which letters beyond ASCII stay as they are here.
use Prim.Native.Char.{Char, code}
use Prim.Native.String.{String}
use ftd_metrics_exporter.Prelude.{List, [], ◌∷◌, ◌==◌, if◌then◌else◌, str_eq}

-- The character that stands in the second text where `c` stands in the first, or `c`.
unfoldable pub replaced : (from to : String) → Char → Char
replaced (String.◌∷◌ x from) (String.◌∷◌ y to) c =
    let rest = replaced from to c in if code x == code c then y else rest
replaced _ _ c = c

unfoldable pub lowercase_enum_label : String → String
lowercase_enum_label String.[] = String.[]
lowercase_enum_label (String.◌∷◌ c s) =
    String.◌∷◌ (replaced "ABCDEFGHIJKLMNOPQRSTUVWXYZ" "abcdefghijklmnopqrstuvwxyz" c)
      (lowercase_enum_label s)

unfoldable pub tunnel_state_label : String → String
tunnel_state_label value =
    if str_eq value "TUNNEL_UP"
    then "up"
    else if str_eq value "TUNNEL_DOWN"
    then "down"
    else if str_eq value "UNKNOWN"
    then "unknown"
    else "unknown"

abbrev pub known_interface_type_values : List String
known_interface_type_values = "Ethernet" ∷ "Management" ∷ "SubInterface" ∷ "GigabitEthernet" ∷ []

abbrev pub redundancy_mode_values : List String
redundancy_mode_values = "STANDALONE" ∷ "HA" ∷ []

abbrev pub config_state_values : List String
config_state_values = "SYNCED" ∷ "NOT_SYNCED" ∷ []

abbrev pub conflict_detection_state_values : List String
conflict_detection_state_values = "NO_CONFLICTS" ∷ []

abbrev pub device_license_status_values : List String
device_license_status_values = "LICENSED" ∷ []

abbrev pub device_compliance_status_values : List String
device_compliance_status_values = "IN_COMPLIANCE" ∷ []

abbrev pub ha_role_values : List String
ha_role_values = "ACTIVE" ∷ "STANDBY" ∷ []

abbrev pub ha_node_status_values : List String
ha_node_status_values = "NORMAL" ∷ "ERROR" ∷ "WARNING" ∷ "DISABLED" ∷ "UNKNOWN" ∷ []

abbrev pub ha_node_type_values : List String
ha_node_type_values = "PRIMARY" ∷ "SECONDARY" ∷ []

abbrev pub tunnel_state_values : List String
tunnel_state_values = "TUNNEL_UP" ∷ "TUNNEL_DOWN" ∷ "UNKNOWN" ∷ []

abbrev pub license_reg_status_values : List String
license_reg_status_values =
    "REGISTERED" ∷ "UNREGISTERED" ∷ "RESERVATION_IN_PROGRESS" ∷ "EVALUATION" ∷ []

abbrev pub license_auth_status_values : List String
license_auth_status_values =
    "AUTHORIZED" ∷ "AUTHORIZED_RESERVED" ∷ "OUT_OF_COMPLIANCE" ∷ "AUTHORIZATION_EXPIRED"
    ∷ "NOT_AUTHORIZED" ∷ []

abbrev pub certificate_status_values : List String
certificate_status_values = "AVAILABLE" ∷ []
