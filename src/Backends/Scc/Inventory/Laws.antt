-- ===== src/Backends/Scc/Inventory/Laws.antt =====
-- src/backends/scc/inventory-map.ts, `readHaNodes`: the nodes of a device.
use ftd_metrics_exporter.Prelude.{
  ◌≡◌, String, false, List, [], ◌∷◌, Option, none, some, includes, str_eq, if_cases, arith,
}
use ftd_metrics_exporter.Prelude.Json.{Json, null, bool, num, str, arr, obj, Fields, get}
use ftd_metrics_exporter.Backends.Fields.{read_required_string}
use ftd_metrics_exporter.Backends.Scc.Inventory.{
  DeviceInventoryHaNode, NodeRead, absent, failed, node, named_node, read_node, seen_after,
  collect_node, read_nodes, unless_empty, read_ha_nodes,
}

-- At most two nodes, whose names differ; if there is a list, it is not empty.
abbrev pub AreNodes : Option (List DeviceInventoryHaNode) → Type 0
AreNodes none = Unit
AreNodes (some []) = ⊥
AreNodes (some (a ∷ [])) = Unit
AreNodes (some (a ∷ b ∷ [])) = str_eq a.node_name b.node_name ≡ false
AreNodes (some (a ∷ b ∷ c ∷ rest)) = ⊥

module _ (uid : String) where
  abbrev IsNew : List String → NodeRead uid → Type 0
  IsNew seen (node n es) = includes seen n.node_name ≡ false
  IsNew seen _ = Unit

  named_node-IsNew :
      (seen : List String) (key node_type : String) (raw : Fields) (name : Option String)
      → IsNew seen (named_node uid seen key node_type raw name)
  named_node-IsNew seen key node_type raw none = tt
  named_node-IsNew seen key node_type raw (some name) =
      if_cases (IsNew seen) (includes seen name) _ _ (λ h. tt) (λ h. h)

  read_node-IsNew :
      (seen : List String) (key node_type : String) (o : Option Json)
      → IsNew seen (read_node uid seen key node_type o)
  unfolding read_node
  read_node-IsNew seen key node_type none = tt
  read_node-IsNew seen key node_type (some (obj raw)) =
      named_node-IsNew seen key node_type raw (read_required_string raw "name")
  read_node-IsNew seen key node_type (some null) = tt
  read_node-IsNew seen key node_type (some (bool b)) = tt
  read_node-IsNew seen key node_type (some (num n)) = tt
  read_node-IsNew seen key node_type (some (str s)) = tt
  read_node-IsNew seen key node_type (some (arr vs)) = tt

  two_nodes :
      (first : NodeRead uid) (second : NodeRead uid)
      → IsNew (seen_after uid [] first) second
      → AreNodes (unless_empty uid (collect_node uid first (collect_node uid second ([], []))).0)
  two_nodes absent absent h = tt
  two_nodes absent (failed e) h = tt
  two_nodes absent (node n es) h = tt
  two_nodes (failed e) absent h = tt
  two_nodes (failed e) (failed e') h = tt
  two_nodes (failed e) (node n es) h = tt
  two_nodes (node m es) absent h = tt
  two_nodes (node m es) (failed e) h = tt
  two_nodes (node m es) (node n es') h = ground arith

  -- Whatever the upstream sends as `ftdHaInfo`, a device has no list of nodes, or a list of one node or of two nodes whose names differ.
  pub read_ha_nodes-AreNodes : (raw : Option Json) → AreNodes (read_ha_nodes uid raw).0
  unfolding read_ha_nodes read_nodes
  read_ha_nodes-AreNodes none = tt
  read_ha_nodes-AreNodes (some (obj raw)) =
      two_nodes (read_node uid [] "primaryNode" "PRIMARY" (get "primaryNode" raw)) _ (
        read_node-IsNew
          (seen_after uid [] (read_node uid [] "primaryNode" "PRIMARY" (get "primaryNode" raw)))
          "secondaryNode" "SECONDARY" (get "secondaryNode" raw))
  read_ha_nodes-AreNodes (some null) = tt
  read_ha_nodes-AreNodes (some (bool b)) = tt
  read_ha_nodes-AreNodes (some (num n)) = tt
  read_ha_nodes-AreNodes (some (str s)) = tt
  read_ha_nodes-AreNodes (some (arr vs)) = tt
