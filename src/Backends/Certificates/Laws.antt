-- ===== src/Backends/Certificates/Laws.antt =====
-- src/backends/shared/certificate-map.ts: the label sets of a record's entries differ.
use ftd_metrics_exporter.Prelude.{
  ℕ, ◌≡◌, refl, sym, ap, ◌∙◌, String, false, List, [], ◌∷◌, Option, none, some, All, map, includes,
  if_cases, arith, eq_iff,
}
use ftd_metrics_exporter.Prelude.Int.{ℤ}
use ftd_metrics_exporter.Prelude.Json.{Json, arr, obj, null, bool, num, str, items}
use ftd_metrics_exporter.Backends.Certificates.{
  Device, DeviceCertificateEntry, resolved_cert_name, ComponentRead, absent, failed, found, Slot,
  no_object, component, read_component, slots, label_key, Round, adds_nothing, reports, adds,
  of_component, round, seen_after, collect, map_slots, map_enrolled,
}

-- No text of the list occurs again behind its place.
abbrev pub AreDistinct : List String → Type 0
AreDistinct [] = Unit
AreDistinct (s ∷ ss) = (includes ss s ≡ false) × AreDistinct ss

module _ (new_date : String → Option ℤ) (utc_fields : ℤ → List ℕ) (device : Device) where
  -- The key of an entry's label set.
  abbrev pub entry_key : DeviceCertificateEntry → String
  entry_key e = label_key new_date utc_fields device e.cert_type e.cert_name

  -- A round that adds an entry adds it under its own key, which has not been seen.
  abbrev IsSound : List String → Round new_date utc_fields device → Type 0
  IsSound seen adds_nothing = Unit
  IsSound seen (reports e) = Unit
  IsSound seen (adds key entry) = (key ≡ entry_key entry) × (includes seen key ≡ false)

  round-IsSound :
      (seen : List String) (slot : Slot new_date utc_fields device)
      → IsSound seen (round new_date utc_fields device seen slot)
  unfolding round
  round-IsSound seen no_object = tt
  round-IsSound seen (component type raw) = go (read_component new_date utc_fields device type raw)
    where
      go :
          (r : ComponentRead)
          → IsSound seen
              (of_component new_date utc_fields device seen type (resolved_cert_name raw) r)
      go absent = tt
      go (failed e) = tt
      go (found status date) =
          if_cases (IsSound seen)
            (includes seen (label_key new_date utc_fields device type (resolved_cert_name raw))) _ _
            (λ h. tt) (λ h. (refl, h))

  -- The entries' keys are new.
  abbrev AreFresh : List String → List DeviceCertificateEntry → Type 0
  AreFresh seen entries = All (λ e. includes seen (entry_key e) ≡ false) entries

  fresh-weaker :
      (key : String) (seen : List String) (entries : List DeviceCertificateEntry)
      → AreFresh (key ∷ seen) entries
      → AreFresh seen entries
  fresh-weaker key seen [] h = tt
  fresh-weaker key seen (e ∷ entries) (h, hs) = (ground arith, fresh-weaker key seen entries hs)

  map_slots-AreFresh :
      (seen : List String) (all : List (Slot new_date utc_fields device))
      → AreFresh seen (map_slots new_date utc_fields device seen all).0
  unfolding map_slots
  map_slots-AreFresh seen [] = tt
  map_slots-AreFresh seen (slot ∷ rest) =
      go (round new_date utc_fields device seen slot) (round-IsSound seen slot) (
        map_slots-AreFresh
          (seen_after new_date utc_fields device seen (round new_date utc_fields device seen slot))
          rest)
    where
      go :
          (r : Round new_date utc_fields device)
          → IsSound seen r
          → AreFresh
              (seen_after new_date utc_fields device seen r)
              (map_slots new_date utc_fields device
                (seen_after new_date utc_fields device seen r)
                rest).0
          → AreFresh seen
              (collect new_date utc_fields device r (
                map_slots new_date utc_fields device
                  (seen_after new_date utc_fields device seen r)
                  rest)).0
      go adds_nothing s h = h
      go (reports e) s h = h
      go (adds key entry) (k, n) h = (ap (includes seen) (sym k) ∙ n, fresh-weaker key seen _ h)

  fresh-distinct :
      (key : String) (seen : List String) (entries : List DeviceCertificateEntry)
      → AreFresh (key ∷ seen) entries
      → includes (map entry_key entries) key ≡ false
  fresh-distinct key seen [] h = refl
  fresh-distinct key seen (e ∷ entries) (h, hs) = ground (
    arith,
    fresh-distinct key seen entries hs,
    eq_iff key (entry_key e),
    eq_iff (entry_key e) key,
  )

  map_slots-AreDistinct :
      (seen : List String) (all : List (Slot new_date utc_fields device))
      → AreDistinct (map entry_key (map_slots new_date utc_fields device seen all).0)
  unfolding map_slots
  map_slots-AreDistinct seen [] = tt
  map_slots-AreDistinct seen (slot ∷ rest) =
      go (round new_date utc_fields device seen slot) (round-IsSound seen slot)
        (map_slots-AreFresh
          (seen_after new_date utc_fields device seen (round new_date utc_fields device seen slot))
          rest)
        (map_slots-AreDistinct
          (seen_after new_date utc_fields device seen (round new_date utc_fields device seen slot))
          rest)
    where
      go :
          (r : Round new_date utc_fields device)
          → IsSound seen r
          → AreFresh
              (seen_after new_date utc_fields device seen r)
              (map_slots new_date utc_fields device
                (seen_after new_date utc_fields device seen r)
                rest).0
          → AreDistinct (
              map entry_key
                (map_slots new_date utc_fields device
                  (seen_after new_date utc_fields device seen r)
                  rest).0)
          → AreDistinct (
              map entry_key
                (collect new_date utc_fields device r (
                  map_slots new_date utc_fields device
                    (seen_after new_date utc_fields device seen r)
                    rest)).0)
      go adds_nothing s f h = h
      go (reports e) s f h = h
      go (adds key entry) (k, n) f h = (
        ap (includes (map entry_key (map_slots new_date utc_fields device (key ∷ seen) rest).0))
              (sym k)
            ∙ fresh-distinct key seen _ f,
        h,
      )

  -- The entries of one record differ in their certificate type or name: no two of them have the same label set.
  pub map_enrolled-AreDistinct :
      (raw : Option Json)
      → AreDistinct (map entry_key (map_enrolled new_date utc_fields device raw).0)
  unfolding map_enrolled
  map_enrolled-AreDistinct none = tt
  map_enrolled-AreDistinct (some (arr raw)) =
      map_slots-AreDistinct [] (slots new_date utc_fields device (items raw))
  map_enrolled-AreDistinct (some null) = tt
  map_enrolled-AreDistinct (some (bool b)) = tt
  map_enrolled-AreDistinct (some (num n)) = tt
  map_enrolled-AreDistinct (some (str s)) = tt
  map_enrolled-AreDistinct (some (obj fields)) = tt
