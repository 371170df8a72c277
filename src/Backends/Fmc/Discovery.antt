-- ===== src/Backends/Fmc/Discovery.antt =====
-- src/backends/fmc/discovery.ts: the pages of `devicerecords`.
-- A page is asked for by its offset: `serve` is what the request and `JSON.parse` give. Warnings are
-- values that name what their texts say; an error that ends the discovery is a value too.
pub mod Devices
pub mod Pages
mod Examples
use ftd_metrics_exporter.Prelude.{
  ℕ, zero, suc, ◌+◌, ◌++◌, String, Bool, true, false, not, ◌&&◌, List, [], ◌∷◌, Option, none, some,
  ltb, ◌==◌, str_eq, if◌then◌else◌, length,
}
use ftd_metrics_exporter.Prelude.Text.{is_empty, trim}
use ftd_metrics_exporter.Prelude.Json.{
  Json, null, bool, num, str, arr, obj, Number, Items, Fields, items, get, below, whole,
}
use ftd_metrics_exporter.Http.Errors.{HttpError}
use ftd_metrics_exporter.Backends.Fields.{FieldRead, ok, malformed, read_optional_string}

abbrev pub page_limit : ℕ
page_limit = 1000

abbrev pub default_max_pages : ℕ
default_max_pages = 1000

abbrev pub fmc_appliance_device_id : String
fmc_appliance_device_id = "0"

pub record FmcDiscoveredDevice : Type 0 where
  pub id : String
  pub name : String
  pub is_connected : Option Bool

pub data Warning : Type 0 where
  not_an_object : Warning
  missing_id : Warning
  missing_name : (id : String) → Warning
  truncated : (seen : ℕ) → (reported : Option Number) → Warning

pub data DiscoveryError : Type 0 where
  request_failed : HttpError → DiscoveryError
  not_json : DiscoveryError
  body_not_object : DiscoveryError
  items_not_array : DiscoveryError
  too_many_pages : ℕ → DiscoveryError

pub record RawDeviceRecordsPage : Type 0 where
  pub items : List FmcDiscoveredDevice
  pub reported_limit : Option Number
  pub reported_count : Option Number
  pub raw_item_count : ℕ
  pub item_warnings : List Warning

abbrev pub number_field : Option Json → Option Number
number_field (some (num n)) = some n
number_field _ = none

abbrev pub bool_field : Option Json → Option Bool
bool_field (some (bool b)) = some b
bool_field _ = none

-- A field of `paging`, if that is an object.
unfoldable pub paging_field : Option Json → String → Option Number
paging_field (some (obj fields)) key = number_field (get key fields)
paging_field _ key = none

abbrev pub valid_id : FieldRead String → Option String
valid_id (ok (some id)) = if is_empty id then none else some id
valid_id _ = none

abbrev pub trimmed_name : FieldRead String → String
trimmed_name (ok (some name)) = trim name
trimmed_name _ = ""

-- The device and the warnings of one object of `items`.
unfoldable pub parse_fields : Fields → Option FmcDiscoveredDevice × List Warning
parse_fields raw = elim (valid_id (read_optional_string raw "id")) [
  | none ↦ (none, missing_id ∷ [])
  | some id ↦
      let name = trimmed_name (read_optional_string raw "name") in
      (
        some (record {
          id = id;
          name = if not (is_empty name) then name else id;
          is_connected = bool_field (get "isConnected" raw);
        }),
        if is_empty name then missing_name id ∷ [] else [],
      )
]

unfoldable pub parse_item : Json → Option FmcDiscoveredDevice × List Warning
parse_item (obj raw) = parse_fields raw
parse_item _ = (none, not_an_object ∷ [])

abbrev pub keep : Option FmcDiscoveredDevice → List FmcDiscoveredDevice → List FmcDiscoveredDevice
keep none ds = ds
keep (some d) ds = d ∷ ds

unfoldable pub parse_items : List Json → List FmcDiscoveredDevice × List Warning
parse_items [] = ([], [])
parse_items (raw ∷ rest) =
    let (device, warnings) = parse_item raw in
    let (devices, warnings') = parse_items rest in (keep device devices, warnings ++ warnings')

pub data Parsed : Type 0 where
  page : RawDeviceRecordsPage → Parsed
  fails : DiscoveryError → Parsed

unfoldable pub page_of : Option Json → Option Json → Parsed
page_of paging none = page (record {
  items = [];
  reported_limit = paging_field paging "limit";
  reported_count = paging_field paging "count";
  raw_item_count = 0;
  item_warnings = [];
})
page_of paging (some (arr raw_items)) = page (record {
  items = (parse_items (items raw_items)).0;
  reported_limit = paging_field paging "limit";
  reported_count = paging_field paging "count";
  raw_item_count = length (items raw_items);
  item_warnings = (parse_items (items raw_items)).1;
})
page_of paging (some _) = fails items_not_array

-- `parseDeviceRecordsPage`; `none` is a body that is no JSON.
unfoldable pub parse_device_records_page : Option Json → Parsed
parse_device_records_page none = fails not_json
parse_device_records_page (some (obj body)) = page_of (get "paging" body) (get "items" body)
parse_device_records_page (some _) = fails body_not_object

-- The devices of a page, less the appliance itself.
unfoldable pub managed : List FmcDiscoveredDevice → List FmcDiscoveredDevice
managed [] = []
managed (d ∷ ds) =
    let rest = managed ds in if str_eq (trim d.id) fmc_appliance_device_id then rest else d ∷ rest

abbrev pub is_below : ℕ → Option Number → Bool
is_below seen none = false
is_below seen (some count) = below seen count

-- The server's page size, if it is a positive number.
abbrev pub effective_page_size : Option Number → Number
effective_page_size none = whole page_limit
effective_page_size (some limit) = if below 0 limit then limit else whole page_limit

pub data Reply : Type 0 where
  body : Option Json → Reply
  broken : HttpError → Reply

pub data Discovered : Type 0 where
  devices : List FmcDiscoveredDevice → Discovered
  throws : DiscoveryError → Discovered

module _ (serve : (offset : ℕ) → Reply) (max_pages : ℕ) where
  -- What the loop does with a page: it returns, with a warning if devices are missing, or goes on to
  -- `next`, the loop from the next page on.
  unfoldable pub after_page :
      RawDeviceRecordsPage
      → (found : List FmcDiscoveredDevice) → (seen : ℕ) → List Warning
      → (next : Discovered × List Warning) → Discovered × List Warning
  after_page p found seen warnings next =
      let still_below = is_below seen p.reported_count in
      let looks_short = below p.raw_item_count (effective_page_size p.reported_limit) in
      if p.raw_item_count == 0
      then (
        devices found,
        warnings ++ (if still_below then truncated seen p.reported_count ∷ [] else []),
      )
      else if looks_short && not still_below
      then (devices found, warnings)
      else next

  -- The `for` loop, with the pages that are left. The offset and the count of the items seen are
  -- advanced by the same amount from 0.
  unfoldable pub fetch_loop :
      ℕ → (offset seen : ℕ) → List FmcDiscoveredDevice → List Warning → Discovered × List Warning
  fetch_loop zero offset seen found warnings = (throws (too_many_pages max_pages), warnings)
  fetch_loop (suc pages) offset seen found warnings = elim (serve offset) [
    | broken e ↦ (throws (request_failed e), warnings)
    | body parsed ↦ elim (parse_device_records_page parsed) [
      | fails e ↦ (throws e, warnings)
      | page p ↦
          after_page p (found ++ managed p.items) (seen + p.raw_item_count)
            (warnings ++ p.item_warnings)
            (fetch_loop pages (offset + p.raw_item_count) (seen + p.raw_item_count)
              (found ++ managed p.items) (warnings ++ p.item_warnings))
    ]
  ]

  unfoldable pub fetch_all_device_records : Discovered × List Warning
  fetch_all_device_records = fetch_loop max_pages 0 0 [] []
