-- ===== src/Backends/Fmc/Discovery/Devices.antt =====
-- What holds of every device that discovery gives, whatever the server sends.
use mathlib.Core.Path.{subst}
use ftd_metrics_exporter.Prelude.{
  ◌⊎◌, ℕ, zero, suc, ◌+◌, ◌++◌, ◌≡◌, ◌≢◌, refl, String, false, List, [], ◌∷◌, Option, none, some,
  arith, All, eq_iff, inl, inr, Option-cases,
}
use ftd_metrics_exporter.Prelude.Text.{is_empty, trim}
use ftd_metrics_exporter.Prelude.Json.{Json, Fields, items, arr, obj, get}
use ftd_metrics_exporter.Http.Errors.{HttpError}
use ftd_metrics_exporter.Backends.Fields.{FieldRead, read_optional_string}
use ftd_metrics_exporter.Backends.Fmc.Discovery.{
  DiscoveryError, FmcDiscoveredDevice, fmc_appliance_device_id, Warning, RawDeviceRecordsPage,
  valid_id, parse_fields, parse_item, parse_items, keep, Parsed, page, fails, page_of,
  parse_device_records_page, managed, Reply, body, broken, Discovered, devices, throws, after_page,
  fetch_loop, fetch_all_device_records,
}

-- A device whose labels are not empty.
abbrev pub IsLabelled : FmcDiscoveredDevice → Type 0
IsLabelled d = (is_empty d.id ≡ false) × (is_empty d.name ≡ false)

-- A device that health requests may be made for.
abbrev pub IsManaged : FmcDiscoveredDevice → Type 0
IsManaged d =
    (is_empty d.id ≡ false) × (is_empty d.name ≡ false) × (trim d.id ≢ fmc_appliance_device_id)

All-append :
    (P : FmcDiscoveredDevice → Type 0) (xs ys : List FmcDiscoveredDevice)
    → All P xs
    → All P ys
    → All P (xs ++ ys)
All-append P [] ys h k = k
All-append P (x ∷ xs) ys h k = (h.0, All-append P xs ys h.1 k)

valid_id-is_empty :
    (r : FieldRead String) (id : String) → valid_id r ≡ some id → is_empty id ≡ false
valid_id-is_empty r id e = ground arith

abbrev Every : Option FmcDiscoveredDevice → Type 0
Every none = Unit
Every (some d) = IsLabelled d

parse_fields-Every : (raw : Fields) → Every (parse_fields raw).0
unfolding parse_fields
parse_fields-Every raw = elim (Option-cases (valid_id (read_optional_string raw "id"))) [
  | inl e ↦ rw (e, Every, parse_fields) tt
  | inr (id, e) ↦
      rw (e, Every, parse_fields)
        (let good = valid_id-is_empty (read_optional_string raw "id") id e in ground arith)
]

parse_item-Every : (raw : Json) → Every (parse_item raw).0
unfolding parse_item
parse_item-Every (obj raw) = parse_fields-Every raw
parse_item-Every _ = tt

keep-All :
    (d : Option FmcDiscoveredDevice) (ds : List FmcDiscoveredDevice)
    → Every d
    → All IsLabelled ds
    → All IsLabelled (keep d ds)
keep-All none ds h k = k
keep-All (some d) ds h k = (h, k)

parse_items-IsLabelled : (raws : List Json) → All IsLabelled (parse_items raws).0
unfolding parse_items
parse_items-IsLabelled [] = tt
parse_items-IsLabelled (raw ∷ rest) =
    keep-All (parse_item raw).0 (parse_items rest).0 (parse_item-Every raw)
      (parse_items-IsLabelled rest)

managed-IsManaged : (ds : List FmcDiscoveredDevice) → All IsLabelled ds → All IsManaged (managed ds)
unfolding managed
managed-IsManaged [] h = tt
managed-IsManaged (d ∷ ds) h =
    ground (arith, managed-IsManaged ds h.1, eq_iff (trim d.id) fmc_appliance_device_id)

abbrev PageIsLabelled : Parsed → Type 0
PageIsLabelled (page p) = All IsLabelled p.items
PageIsLabelled (fails e) = Unit

page_of-IsLabelled : (paging raw : Option Json) → PageIsLabelled (page_of paging raw)
unfolding page_of
page_of-IsLabelled paging none = tt
page_of-IsLabelled paging (some (arr raws)) = parse_items-IsLabelled (items raws)
page_of-IsLabelled paging (some _) = tt

parse-IsLabelled : (parsed : Option Json) → PageIsLabelled (parse_device_records_page parsed)
unfolding parse_device_records_page
parse-IsLabelled none = tt
parse-IsLabelled (some (obj fields)) = page_of-IsLabelled (get "paging" fields) (get "items" fields)
parse-IsLabelled (some _) = tt

pub Reply-cases :
    (r : Reply) → ((e : HttpError) × (r ≡ broken e)) ⊎ ((b : Option Json) × (r ≡ body b))
Reply-cases (broken e) = inl (e, refl)
Reply-cases (body b) = inr (b, refl)

pub Parsed-cases :
    (p : Parsed)
    → ((e : DiscoveryError) × (p ≡ fails e)) ⊎ ((r : RawDeviceRecordsPage) × (p ≡ page r))
Parsed-cases (fails e) = inl (e, refl)
Parsed-cases (page r) = inr (r, refl)

abbrev pub AllManaged : Discovered × List Warning → Type 0
AllManaged (devices ds, _) = All IsManaged ds
AllManaged (throws e, _) = Unit

module _ (serve : ℕ → Reply) (max_pages : ℕ) where
  after_page-AllManaged :
      (p : RawDeviceRecordsPage) (found : List FmcDiscoveredDevice) (seen : ℕ)
      (warnings : List Warning) (following : Discovered × List Warning)
      → All IsManaged found
      → AllManaged following
      → AllManaged (after_page serve max_pages p found seen warnings following)
  unfolding after_page
  after_page-AllManaged p found seen warnings following h k = ground arith

  fetch_loop-AllManaged :
      (pages offset seen : ℕ) (found : List FmcDiscoveredDevice) (warnings : List Warning)
      → All IsManaged found
      → AllManaged (fetch_loop serve max_pages pages offset seen found warnings)
  unfolding fetch_loop
  fetch_loop-AllManaged zero offset seen found warnings h = tt
  fetch_loop-AllManaged (suc pages) offset seen found warnings h =
      elim (Reply-cases (serve offset)) [
        | inl (e, q) ↦ rw (q, AllManaged, fetch_loop) tt
        | inr (parsed, q) ↦ elim (Parsed-cases (parse_device_records_page parsed)) [
          | inl (e, r) ↦ rw (q, r, AllManaged, fetch_loop) tt
          | inr (p, r) ↦
              let good : All IsLabelled p.items =
                subst PageIsLabelled r (parse-IsLabelled parsed) in
              let found' =
                All-append IsManaged found (managed p.items) h (managed-IsManaged p.items good) in
              rw (q, r, fetch_loop)
                (after_page-AllManaged p _ _ _ _ found' (
                  fetch_loop-AllManaged pages (offset + p.raw_item_count) (seen + p.raw_item_count)
                    (found ++ managed p.items) (warnings ++ p.item_warnings) found'))
        ]
      ]

  -- Whatever the server sends, every device that discovery gives has an id and a name that are not
  -- empty, and none is the appliance itself, not even with white space around its id.
  pub fetch_all_device_records-AllManaged : AllManaged (fetch_all_device_records serve max_pages)
  unfolding fetch_all_device_records
  fetch_all_device_records-AllManaged = fetch_loop-AllManaged max_pages 0 0 [] [] tt
