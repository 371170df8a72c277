-- ===== src/Backends/Scc/Inventory.antt =====
-- src/backends/scc/inventory-map.ts: the device inventory.
pub mod Laws
use ftd_metrics_exporter.Prelude.{
  String, Bool, true, false, List, [], ◌∷◌, ◌++◌, Option, none, some, str_eq, includes,
  if◌then◌else◌,
}
use ftd_metrics_exporter.Prelude.Json.{Json, arr, obj, Items, Fields, items, get}
use ftd_metrics_exporter.Backends.Fields.{
  FieldRead, ok, malformed, read_optional_string, read_required_string,
}

abbrev pub ftd_device_type : String
ftd_device_type = "CDFMC_MANAGED_FTD"

pub record DeviceInventoryHaNode : Type 0 where
  pub node_name : String
  pub role : Option String
  pub node_type : String

pub record DeviceInventoryEntry : Type 0 where
  pub device_uid : String
  pub device_name : String
  pub connectivity_state : Option String
  pub redundancy_mode : Option String
  pub uid_on_fmc : Option String
  pub software_version : Option String
  pub serial : Option String
  pub ftd_performance_tier : Option String
  pub config_state : Option String
  pub conflict_detection_state : Option String
  pub license_status : Option String
  pub compliance_status : Option String
  pub ha_nodes : Option (List DeviceInventoryHaNode)

-- The diagnostics, which name what their texts say; a key is that of the field.
pub data InventoryError : Type 0 where
  response_not_an_object no_items item_not_an_object type_not_a_string : InventoryError
  missing_uid_or_name : InventoryError
  field_not_a_string : (uid key : String) → InventoryError
  ha_info_not_an_object : (uid : String) → InventoryError
  node_not_an_object node_without_name role_not_a_string : (uid key : String) → InventoryError
  node_repeated : (uid key name : String) → InventoryError

-- `HA_INFO_NODE_KEYS`: the keys, and the type that each stands for.
abbrev pub ha_info_node_keys : List (String × String)
ha_info_node_keys = ("primaryNode", "PRIMARY") ∷ ("secondaryNode", "SECONDARY") ∷ []

module _ (uid : String) where
  -- `readOptionalField`
  abbrev pub field_of : (key : String) → FieldRead String → Option String × List InventoryError
  field_of key (ok value) = (value, [])
  field_of key malformed = (none, field_not_a_string uid key ∷ [])

  abbrev pub role_of : (key : String) → FieldRead String → Option String × List InventoryError
  role_of key (ok role) = (role, [])
  role_of key malformed = (none, role_not_a_string uid key ∷ [])

  -- What one key adds: nothing, an error, or a node with the error of its role.
  pub data NodeRead : Type 0 where
    absent : NodeRead
    failed : InventoryError → NodeRead
    node : DeviceInventoryHaNode → List InventoryError → NodeRead

  abbrev pub named_node : List String → (key node_type : String) → Fields → Option String → NodeRead
  named_node seen key node_type raw none = failed (node_without_name uid key)
  named_node seen key node_type raw (some name) =
      if includes seen name
      then failed (node_repeated uid key name)
      else node
          (record {
            node_name = name;
            role = (role_of key (read_optional_string raw "role")).0;
            node_type = node_type;
          })
          (role_of key (read_optional_string raw "role")).1

  unfoldable pub read_node : List String → (key node_type : String) → Option Json → NodeRead
  read_node seen key node_type none = absent
  read_node seen key node_type (some (obj raw)) =
      named_node seen key node_type raw (read_required_string raw "name")
  read_node seen key node_type (some _) = failed (node_not_an_object uid key)

  abbrev pub seen_after : List String → NodeRead → List String
  seen_after seen (node n errors) = n.node_name ∷ seen
  seen_after seen _ = seen

  abbrev pub collect_node :
      NodeRead
      → List DeviceInventoryHaNode × List InventoryError
      → List DeviceInventoryHaNode × List InventoryError
  collect_node absent later = later
  collect_node (failed e) (nodes, errors) = (nodes, e ∷ errors)
  collect_node (node n es) (nodes, errors) = (n ∷ nodes, es ++ errors)

  unfoldable pub read_nodes :
      Fields
      → (seen : List String) → List (String × String)
      → List DeviceInventoryHaNode × List InventoryError
  read_nodes raw seen [] = ([], [])
  read_nodes raw seen ((key, node_type) ∷ keys) =
      let r = read_node seen key node_type (get key raw) in
      collect_node r (read_nodes raw (seen_after seen r) keys)

  abbrev pub unless_empty : List DeviceInventoryHaNode → Option (List DeviceInventoryHaNode)
  unless_empty [] = none
  unless_empty nodes = some nodes

  unfoldable pub read_ha_nodes :
      Option Json → Option (List DeviceInventoryHaNode) × List InventoryError
  read_ha_nodes none = (none, [])
  read_ha_nodes (some (obj raw)) =
      let (nodes, errors) = read_nodes raw [] ha_info_node_keys in (unless_empty nodes, errors)
  read_ha_nodes (some _) = (none, ha_info_not_an_object uid ∷ [])

  unfoldable pub entry_of : Fields → (name : String) → DeviceInventoryEntry × List InventoryError
  entry_of raw name =
      let connectivity =
        field_of "connectivityState" (read_optional_string raw "connectivityState") in
      let redundancy = field_of "redundancyMode" (read_optional_string raw "redundancyMode") in
      let on_fmc = field_of "uidOnFmc" (read_optional_string raw "uidOnFmc") in
      let version = field_of "softwareVersion" (read_optional_string raw "softwareVersion") in
      let serial = field_of "serial" (read_optional_string raw "serial") in
      let tier = field_of "ftdPerformanceTier" (read_optional_string raw "ftdPerformanceTier") in
      let state = field_of "configState" (read_optional_string raw "configState") in
      let conflict =
        field_of "conflictDetectionState" (read_optional_string raw "conflictDetectionState") in
      let license = field_of "licenseStatus" (read_optional_string raw "licenseStatus") in
      let compliance = field_of "complianceStatus" (read_optional_string raw "complianceStatus") in
      let nodes = read_ha_nodes (get "ftdHaInfo" raw) in
      (
        record {
          device_uid = uid;
          device_name = name;
          connectivity_state = connectivity.0;
          redundancy_mode = redundancy.0;
          uid_on_fmc = on_fmc.0;
          software_version = version.0;
          serial = serial.0;
          ftd_performance_tier = tier.0;
          config_state = state.0;
          conflict_detection_state = conflict.0;
          license_status = license.0;
          compliance_status = compliance.0;
          ha_nodes = nodes.0;
        },
        connectivity.1
            ++ (redundancy.1
                ++ (on_fmc.1
                    ++ (version.1
                        ++ (serial.1
                            ++ (tier.1
                                ++ (state.1
                                    ++ (conflict.1
                                        ++ (license.1 ++ (compliance.1 ++ nodes.1))))))))),
      )

-- What one item of the response gives: it is excluded, an error, or a device.
pub data Item : Type 0 where
  excluded : Item
  refused : InventoryError → Item
  device : DeviceInventoryEntry → List InventoryError → Item

abbrev pub named_item : Fields → (uid name : Option String) → Item
named_item raw (some uid) (some name) =
    let (entry, errors) = entry_of uid raw name in device entry errors
named_item raw _ _ = refused missing_uid_or_name

abbrev pub typed_item : Fields → FieldRead String → Item
typed_item raw malformed = refused type_not_a_string
typed_item raw (ok none) = excluded
typed_item raw (ok (some type)) =
    if str_eq type ftd_device_type
    then named_item raw (read_required_string raw "uid") (read_required_string raw "name")
    else excluded

unfoldable pub map_item : Json → Item
map_item (obj raw) = typed_item raw (read_optional_string raw "deviceType")
map_item _ = refused item_not_an_object

abbrev pub collect_item :
    Item
    → List DeviceInventoryEntry × List InventoryError
    → List DeviceInventoryEntry × List InventoryError
collect_item excluded later = later
collect_item (refused e) (entries, errors) = (entries, e ∷ errors)
collect_item (device entry es) (entries, errors) = (entry ∷ entries, es ++ errors)

unfoldable pub map_items : List Json → List DeviceInventoryEntry × List InventoryError
map_items [] = ([], [])
map_items (raw ∷ rest) = collect_item (map_item raw) (map_items rest)

abbrev pub of_items : Option Json → List DeviceInventoryEntry × List InventoryError
of_items (some (arr raw)) = map_items (items raw)
of_items _ = ([], no_items ∷ [])

unfoldable pub map_scc_inventory_response : Json → List DeviceInventoryEntry × List InventoryError
map_scc_inventory_response (obj payload) = of_items (get "items" payload)
map_scc_inventory_response _ = ([], response_not_an_object ∷ [])
