-- ===== src/Backends/Fmc/Map/Laws.antt =====
-- src/backends/fmc/map.ts, `mapFmcFamilyResponse`: whose data a result holds.
use ftd_metrics_exporter.Prelude.{
  ◌≡◌, refl, ap, ◌∙◌, String, true, false, [], Option, none, some, str_eq, if_cases, ◌⊎◌, inl, inr,
  arith, eq_iff,
}
use ftd_metrics_exporter.Prelude.Int.{ℤ}
use ftd_metrics_exporter.Prelude.Json.{Fields, get}
use ftd_metrics_exporter.Backends.Fields.{FieldRead, ok, malformed, read_optional_string}
use ftd_metrics_exporter.Backends.Fmc.Map.{
  FmcMetricFamily, no_groups, FmcFamilyMapResult, is_empty_family_response, matches_several,
  is_object, first_object, nothing, map_item, check_id, check_item, map_body,
}

-- What a result with data comes from: an object that is no error envelope, that matches one device, and whose first item
-- has the device's id or none.
pub record IsTrusted (device_uid : String) (response item : Fields) : Type 0 where
  pub no_envelope : is_object (get "error" response) ≡ false
  pub not_empty : is_empty_family_response response ≡ false
  pub one_device : matches_several (get "paging" response) ≡ false
  pub first_item : first_object (get "items" response) ≡ some item
  pub same_device :
      (read_optional_string item "id" ≡ ok none)
      ⊎ (read_optional_string item "id" ≡ ok (some device_uid))

module _ (new_date : String → Option ℤ) (device_uid : String) (family : FmcMetricFamily) where
  -- No data, or the data of an item of the response that belongs to the device.
  abbrev pub IsOwn : Fields → FmcFamilyMapResult → Type 0
  IsOwn response r =
      (r.partial ≡ no_groups)
      ⊎ ((item : Fields) × IsTrusted device_uid response item
          × (r ≡ map_item new_date device_uid family item))

  check_id-IsOwn :
      (response item : Fields)
      → is_object (get "error" response) ≡ false
      → is_empty_family_response response ≡ false
      → matches_several (get "paging" response) ≡ false
      → first_object (get "items" response) ≡ some item
      → (read : FieldRead String) → read_optional_string item "id" ≡ read
      → IsOwn response (check_id new_date device_uid family item read)
  unfolding nothing
  check_id-IsOwn response item e n m f malformed r = inl refl
  check_id-IsOwn response item e n m f (ok none) r = inr (
    item,
    record { no_envelope = e; not_empty = n; one_device = m; first_item = f; same_device = inl r },
    refl,
  )
  check_id-IsOwn response item e n m f (ok (some id)) r =
      if_cases (IsOwn response) (str_eq id device_uid) _ _
        (λ h. inr (
          item,
          record {
            no_envelope = e;
            not_empty = n;
            one_device = m;
            first_item = f;
            same_device = inr (r ∙ ap (λ s. ok (some s)) (ground (arith, eq_iff id device_uid)));
          },
          refl,
        ))
        (λ h. inl refl)

  check_item-IsOwn :
      (response : Fields)
      → is_object (get "error" response) ≡ false
      → is_empty_family_response response ≡ false
      → matches_several (get "paging" response) ≡ false
      → (item : Option Fields) → first_object (get "items" response) ≡ item
      → IsOwn response (check_item new_date device_uid family item)
  unfolding nothing
  check_item-IsOwn response e n m none f = inl refl
  check_item-IsOwn response e n m (some item) f =
      check_id-IsOwn response item e n m f (read_optional_string item "id") refl

  -- The result of a response holds no data, or exactly what is mapped from the response's first item, and then the response is no error envelope,
  -- is not empty, does not match several devices, and the item's id is missing or the device's.
  pub map_body-IsOwn :
      (response : Fields) → IsOwn response (map_body new_date device_uid family response)
  unfolding map_body nothing
  map_body-IsOwn response =
      if_cases (IsOwn response) (is_object (get "error" response)) _ _ (λ h. inl refl)
        (λ e.
          if_cases (IsOwn response) (is_empty_family_response response) _ _ (λ h. inl refl)
            (λ n.
              if_cases (IsOwn response) (matches_several (get "paging" response)) _ _
                (λ h. inl refl)
                (λ m. check_item-IsOwn response e n m (first_object (get "items" response)) refl)))

  -- A response of an absent family, which is no error envelope, gives neither data nor a diagnostic.
  pub map_body_absent :
      (response : Fields)
      → is_object (get "error" response) ≡ false
      → is_empty_family_response response ≡ true
      → map_body new_date device_uid family response ≡ nothing []
  unfolding map_body
  map_body_absent response e n = ground arith
