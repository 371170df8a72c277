-- ===== src/Backends/Fmc/Discovery/Examples.antt =====
-- The theorems about discovery at a concrete input.
use ftd_metrics_exporter.Prelude.{◌≡◌, String, arith, List, [], ◌∷◌}
use ftd_metrics_exporter.Prelude.Json.{Json, null, num, str, obj, field, end, whole}
use ftd_metrics_exporter.Backends.Fmc.Discovery.{
  devices, managed, parse_items, fetch_all_device_records,
}
use ftd_metrics_exporter.Backends.Fmc.Discovery.Devices.{
  AllManaged, fetch_all_device_records-AllManaged,
}
use ftd_metrics_exporter.Backends.Fmc.Discovery.Pages.{server, fetch_all_device_records-server}

abbrev named_device : String → String → Json
named_device id name = obj (field "id" (str id) (field "name" (str name) end))

-- The appliance, a device without a name, and a value that is no object, among two devices.
abbrev records : List Json
records =
    named_device "0" "fmc"
    ∷ named_device "d1" "ftd-1"
    ∷ named_device "d2" " "
    ∷ null
    ∷ named_device "d3" "ftd-3"
    ∷ []

-- The claimed page size is above what a page holds.
abbrev claimed : Json
claimed = num (whole 1_000)

fetch_all_device_records-AllManaged_example :
    AllManaged (fetch_all_device_records (server 2 claimed records) 4)
fetch_all_device_records-AllManaged_example =
    fetch_all_device_records-AllManaged (server 2 claimed records) 4

fetch_all_device_records-server_example :
    fetch_all_device_records (server 2 claimed records) 4
    ≡ (devices (managed (parse_items records).0), (parse_items records).1)
fetch_all_device_records-server_example =
    fetch_all_device_records-server 4 1 claimed records (omega arith)
