-- ===== src/Backends/Scc/Examples.antt =====
-- The theorems about src/backends/scc/ at concrete responses.
use ftd_metrics_exporter.Prelude.{
  ◌+◌, ◌≡◌, refl, String, true, false, List, [], ◌∷◌, ◌++◌, Option, none, some, All, length,
}
use ftd_metrics_exporter.Prelude.Int.{ℤ}
use ftd_metrics_exporter.Prelude.Json.{Json, null, str, obj, end, field, get}
use ftd_metrics_exporter.Backends.Scc.Map.{
  map_devices, after_fit, skip_digits, is_zone, is_fraction_and_zone, is_iso_8601,
}
use ftd_metrics_exporter.Backends.Timestamps.{fits}
use ftd_metrics_exporter.Backends.Scc.Map.Laws.{IsNamed, root_count, map_devices-IsNamed}
use ftd_metrics_exporter.Backends.Scc.Inventory.Laws.{AreNodes, read_ha_nodes-AreNodes}
use ftd_metrics_exporter.Backends.Scc.Inventory.{
  node_repeated, read_ha_nodes, read_nodes, read_node,
}
use ftd_metrics_exporter.Backends.Scc.Lifetime.{
  Options, create_scc_adapter, init, close, created, inits, closes,
}
use ftd_metrics_exporter.Backends.Scc.Lifetime.Laws.{IsCoherent, IsClosedOnce, Reach-IsCoherent}
use ftd_metrics_exporter.Backends.Fields.{read_required_string, read_optional_string}

abbrev no_date : String → Option ℤ
no_date text = none

-- A device, and an entry that is not an object.
abbrev entries : List Json
entries =
    obj (
      field "deviceUid" (str "d1")
        (field "deviceName" (str "edge") (field "startTime" (str "today") end)))
    ∷ null
    ∷ []

map_devices-IsNamed_example :
    (length (map_devices no_date entries).0 + root_count (map_devices no_date entries).1 ≡ 2)
    × All IsNamed (map_devices no_date entries).0
map_devices-IsNamed_example = map_devices-IsNamed no_date entries

-- Two nodes of the same name, of which the second is dropped.
abbrev same_names : Json
same_names = obj (
    field "primaryNode" (obj (field "name" (str "n") end))
      (field "secondaryNode" (obj (field "name" (str "n") end)) end))

same_names_read : read_ha_nodes "d1" (some same_names) ≡ (
  some (record { node_name = "n"; role = none; node_type = "PRIMARY" } ∷ []),
  node_repeated "d1" "secondaryNode" "n" ∷ [],
)
unfolding read_ha_nodes read_nodes read_node read_required_string read_optional_string get
same_names_read = refl

read_ha_nodes-AreNodes_example : AreNodes (read_ha_nodes "d1" (some same_names)).0
read_ha_nodes-AreNodes_example = read_ha_nodes-AreNodes "d1" (some same_names)

-- An adapter that is closed after `init`, and closed again.
abbrev all_polled : Options
all_polled = record {
  api_token = " token ";
  given_dispatcher = false;
  spacing_valid = true;
  inventory_interval = true;
  license_interval = true;
  certificate_interval = true;
}

Reach-IsCoherent_example :
    IsCoherent (close (close (init all_polled (some "domain") create_scc_adapter).0).0).0
    × IsClosedOnce (close (close (init all_polled (some "domain") create_scc_adapter).0).0).0 (
        ([] ++ (close (init all_polled (some "domain") create_scc_adapter).0).1)
        ++ (close (close (init all_polled (some "domain") create_scc_adapter).0).0).1)
Reach-IsCoherent_example =
    Reach-IsCoherent (closes (closes (inits all_polled (some "domain") created)))

iso_8601_read :
    (is_iso_8601 "2026-08-11T10:00:00.123Z" ≡ true)
    × (is_iso_8601 "2026-08-11T10:00:00+02:00" ≡ true)
    × (is_iso_8601 "2026-08-11 10:00:00.123 UTC" ≡ false)
    × (is_iso_8601 "2026-08-11T10:00:00.Z" ≡ false)
unfolding is_iso_8601 after_fit is_fraction_and_zone is_zone fits skip_digits
iso_8601_read = (refl, refl, refl, refl)
