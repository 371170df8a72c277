-- ===== src/Backends/Scc/Map/Laws.antt =====
-- src/backends/scc/map.ts: every entry of the response gives a snapshot or a diagnostic.
use ftd_metrics_exporter.Prelude.{
  ℕ, suc, ◌+◌, ◌≡◌, refl, String, false, List, [], ◌∷◌, ◌++◌, map, Option, none, some, All, length,
  arith,
}
use ftd_metrics_exporter.Prelude.Int.{ℤ}
use ftd_metrics_exporter.Prelude.Text.{is_empty}
use ftd_metrics_exporter.Prelude.Json.{Json, null, bool, num, str, arr, obj, Fields}
use ftd_metrics_exporter.Backends.Fields.{read_required_string}
use ftd_metrics_exporter.Backends.Groups.{ParseError}
use ftd_metrics_exporter.Backends.Fmc.Merge.{DeviceHealthSnapshot}
use ftd_metrics_exporter.Backends.Scc.Map.{
  MapError, root, of_device, snapshot_of, Entry, skipped, device, named_entry, map_entry, collect,
  map_devices,
}

-- The diagnostics of entries that are skipped.
abbrev pub root_count : List MapError → ℕ
root_count [] = 0
root_count (root message ∷ es) = suc (root_count es)
root_count (of_device e ∷ es) = root_count es

-- A snapshot has an id and a name, neither of them empty.
abbrev pub IsNamed : DeviceHealthSnapshot → Type 0
IsNamed s = (is_empty s.device_uid ≡ false) × (is_empty s.device_name ≡ false)

abbrev IsPresent : Option String → Type 0
IsPresent none = Unit
IsPresent (some s) = is_empty s ≡ false

read_required_string-IsPresent :
    (fields : Fields) (key : String) → IsPresent (read_required_string fields key)
unfolding read_required_string
read_required_string-IsPresent fields key = ground arith

root_count-append :
    (es : List ParseError) (rest : List MapError)
    → root_count (map of_device es ++ rest) ≡ root_count rest
root_count-append [] rest = refl
root_count-append (e ∷ es) rest = root_count-append es rest

module _ (new_date : String → Option ℤ) where
  abbrev IsSound : Entry new_date → Type 0
  IsSound (skipped message) = Unit
  IsSound (device snapshot es) = IsNamed snapshot

  named_entry-IsSound :
      (raw : Fields) (uid name : Option String)
      → IsPresent uid
      → IsPresent name
      → IsSound (named_entry new_date raw uid name)
  unfolding snapshot_of
  named_entry-IsSound raw (some uid) (some name) hu hn = (hu, hn)
  named_entry-IsSound raw none name hu hn = tt
  named_entry-IsSound raw (some uid) none hu hn = tt

  map_entry-IsSound : (raw : Json) → IsSound (map_entry new_date raw)
  unfolding map_entry
  map_entry-IsSound (obj raw) =
      named_entry-IsSound raw (read_required_string raw "deviceUid")
        (read_required_string raw "deviceName") (read_required_string-IsPresent raw "deviceUid")
        (read_required_string-IsPresent raw "deviceName")
  map_entry-IsSound null = tt
  map_entry-IsSound (bool b) = tt
  map_entry-IsSound (num n) = tt
  map_entry-IsSound (str s) = tt
  map_entry-IsSound (arr vs) = tt

  -- Every entry of the response gives a snapshot or the diagnostic that it is skipped, not both, and every snapshot has an id and a name that are not empty.
  pub map_devices-IsNamed :
      (entries : List Json)
      → (length (map_devices new_date entries).0 + root_count (map_devices new_date entries).1
          ≡ length entries)
        × All IsNamed (map_devices new_date entries).0
  unfolding map_devices
  map_devices-IsNamed [] = (refl, tt)
  map_devices-IsNamed (raw ∷ rest) =
      go (map_entry new_date raw) (map_entry-IsSound raw) (map_devices new_date rest)
        (map_devices-IsNamed rest)
    where
      go :
          (e : Entry new_date)
          → IsSound e
          → (later : List DeviceHealthSnapshot × List MapError)
          → (length later.0 + root_count later.1 ≡ length rest) × All IsNamed later.0
          → (length (collect new_date e later).0 + root_count (collect new_date e later).1
              ≡ suc (length rest))
            × All IsNamed (collect new_date e later).0
      go (skipped message) s later (h, a) = (omega (arith, h), a)
      go (device snapshot es) s later (h, a) =
          (omega (arith, h, root_count-append es later.1), (s, a))
