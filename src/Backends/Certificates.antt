-- ===== src/Backends/Certificates.antt =====
-- src/backends/shared/certificate-map.ts: the certificates of the devices.
-- `lookupDevice` is the adapter's; `new Date(text)` and the UTC fields of a date are the engine's.
pub mod Laws
use ftd_metrics_exporter.Prelude.{
  ℕ, String, Bool, true, false, List, [], ◌∷◌, ◌++◌, Option, none, some, includes, str_eq,
  if◌then◌else◌,
}
use ftd_metrics_exporter.Prelude.Int.{ℤ}
use ftd_metrics_exporter.Prelude.Text.{concat}
use ftd_metrics_exporter.Prelude.Json.{Json, arr, obj, Items, Fields, end, items, get}
use ftd_metrics_exporter.Backends.Fields.{FieldRead, ok, malformed, read_optional_string}
use ftd_metrics_exporter.Backends.Timestamps.{parse_certificate_expiry}

pub data CertificateComponentType : Type 0 where
  ca identity : CertificateComponentType

abbrev pub type_label : CertificateComponentType → String
type_label ca = "ca"
type_label identity = "identity"

abbrev pub status_field : CertificateComponentType → String
status_field ca = "caCertificateStatus"
status_field identity = "identityCertificateStatus"

abbrev pub expiry_field : CertificateComponentType → String
expiry_field ca = "caCertExpiryDate"
expiry_field identity = "identityCertExpiryDate"

pub record Device : Type 0 where
  pub device_uid : String
  pub device_name : String

pub record DeviceCertificateEntry : Type 0 where
  pub device_uid : String
  pub device_name : String
  pub cert_name : String
  pub cert_type : CertificateComponentType
  pub status : String
  pub expires_at : ℤ

-- The diagnostics of a record, of a device's list, and of a component.
pub data CertificateError : Type 0 where
  response_not_an_object : CertificateError
  response_without_items : CertificateError
  record_not_an_object : CertificateError
  record_without_id : CertificateError
  unknown_device : (id : String) → CertificateError
  certificates_not_an_array : Device → CertificateError
  entry_not_an_object : Device → CertificateError
  not_strings : Device → CertificateComponentType → CertificateError
  unexpected_expiry : Device → CertificateComponentType → (expiry : String) → CertificateError
  inconsistent : Device → CertificateComponentType → CertificateError
  unexpected_sentinel : Device → CertificateComponentType → (status : String) → CertificateError
  bad_expiry : Device → CertificateComponentType → (expiry : String) → CertificateError
  duplicate : Device → CertificateComponentType → (cert_name : String) → CertificateError

abbrev pub not_applicable : String
not_applicable = "NOT_APPLICABLE"

abbrev pub not_applicable_sentinel : String
not_applicable_sentinel = "-"

-- What a component of a certificate says: nothing, an error, or a status and an expiry.
pub data ComponentRead : Type 0 where
  absent : ComponentRead
  failed : CertificateError → ComponentRead
  found : (status : String) → (expires_at : ℤ) → ComponentRead

-- The fields of `rawCert.certificate`; a field of no object is absent, like one of an empty object.
abbrev pub container_of : Option Json → Fields
container_of (some (obj fields)) = fields
container_of _ = end

abbrev pub name_of : FieldRead String → String
name_of (ok (some name)) = name
name_of _ = ""

unfoldable pub resolved_cert_name : Fields → String
resolved_cert_name raw_cert =
    name_of (read_optional_string (container_of (get "certificate" raw_cert)) "name")

module _ (new_date : String → Option ℤ) (utc_fields : ℤ → List ℕ) (device : Device) where
  abbrev pub expiring :
      CertificateComponentType → (status expiry : String) → Option ℤ → ComponentRead
  expiring type status expiry none = failed (bad_expiry device type expiry)
  expiring type status expiry (some date) = found status date

  abbrev pub sentinel_check : CertificateComponentType → Option String → ComponentRead
  sentinel_check type none = absent
  sentinel_check type (some expiry) =
      if str_eq expiry not_applicable_sentinel
      then absent
      else failed (unexpected_expiry device type expiry)

  -- A status that is set, with the expiry.
  unfoldable pub read_status :
      CertificateComponentType → (status : String) → Option String → ComponentRead
  read_status type status none =
      if str_eq status not_applicable
      then sentinel_check type none
      else failed (inconsistent device type)
  read_status type status (some expiry) =
      if str_eq status not_applicable
      then sentinel_check type (some expiry)
      else if str_eq expiry not_applicable_sentinel
      then failed (unexpected_sentinel device type status)
      else expiring type status expiry (parse_certificate_expiry new_date utc_fields expiry)

  abbrev pub read_pair :
      CertificateComponentType → FieldRead String → FieldRead String → ComponentRead
  read_pair type (ok none) (ok none) = absent
  read_pair type (ok none) (ok (some expiry)) = failed (inconsistent device type)
  read_pair type (ok (some status)) (ok expiry) = read_status type status expiry
  read_pair type _ _ = failed (not_strings device type)

  unfoldable pub read_component : CertificateComponentType → Fields → ComponentRead
  read_component type raw_cert =
      read_pair type (read_optional_string raw_cert (status_field type))
        (read_optional_string raw_cert (expiry_field type))

  -- One round of the two inner loops: an entry that is no object, or a component of a certificate.
  pub data Slot : Type 0 where
    no_object : Slot
    component : CertificateComponentType → Fields → Slot

  unfoldable pub slots : List Json → List Slot
  slots [] = []
  slots (obj raw ∷ rest) = component ca raw ∷ component identity raw ∷ slots rest
  slots (_ ∷ rest) = no_object ∷ slots rest

  -- `${component.type}:${resolvedCertName}`
  unfoldable pub label_key : CertificateComponentType → (cert_name : String) → String
  label_key type cert_name = concat (type_label type ∷ ":" ∷ cert_name ∷ [])

  -- What a round adds to the entries, to the errors and to `seenKeys`.
  pub data Round : Type 0 where
    adds_nothing : Round
    reports : CertificateError → Round
    adds : (key : String) → DeviceCertificateEntry → Round

  abbrev pub new_entry : List String → (key : String) → DeviceCertificateEntry → Round
  new_entry seen key entry =
      if includes seen key
      then reports (duplicate device entry.cert_type entry.cert_name)
      else adds key entry

  abbrev pub of_component :
      List String → CertificateComponentType → (cert_name : String) → ComponentRead → Round
  of_component seen type cert_name absent = adds_nothing
  of_component seen type cert_name (failed e) = reports e
  of_component seen type cert_name (found status expires_at) =
      new_entry seen (label_key type cert_name) (record {
        device_uid = device.device_uid;
        device_name = device.device_name;
        cert_name = cert_name;
        cert_type = type;
        status = status;
        expires_at = expires_at;
      })

  unfoldable pub round : (seen : List String) → Slot → Round
  round seen no_object = reports (entry_not_an_object device)
  round seen (component type raw) =
      of_component seen type (resolved_cert_name raw) (read_component type raw)

  abbrev pub seen_after : List String → Round → List String
  seen_after seen (adds key entry) = key ∷ seen
  seen_after seen _ = seen

  abbrev pub collect :
      Round
      → List DeviceCertificateEntry × List CertificateError
      → List DeviceCertificateEntry × List CertificateError
  collect adds_nothing later = later
  collect (reports e) (entries, errors) = (entries, e ∷ errors)
  collect (adds key entry) (entries, errors) = (entry ∷ entries, errors)

  unfoldable pub map_slots :
      (seen : List String) → List Slot → List DeviceCertificateEntry × List CertificateError
  map_slots seen [] = ([], [])
  map_slots seen (slot ∷ rest) =
      let r = round seen slot in collect r (map_slots (seen_after seen r) rest)

  unfoldable pub map_enrolled : Option Json → List DeviceCertificateEntry × List CertificateError
  map_enrolled none = ([], [])
  map_enrolled (some (arr raw)) = map_slots [] (slots (items raw))
  map_enrolled (some _) = ([], certificates_not_an_array device ∷ [])

module _ (new_date : String → Option ℤ) (utc_fields : ℤ → List ℕ)
    (lookup_device : String → Option Device) where
  abbrev pub with_device :
      Fields → (id : String) → Option Device → List DeviceCertificateEntry × List CertificateError
  with_device raw id none = ([], unknown_device id ∷ [])
  with_device raw id (some device) =
      map_enrolled new_date utc_fields device (get "enrolledCertificates" raw)

  abbrev pub with_id :
      Fields → FieldRead String → List DeviceCertificateEntry × List CertificateError
  with_id raw (ok (some id)) = with_device raw id (lookup_device id)
  with_id raw _ = ([], record_without_id ∷ [])

  unfoldable pub map_record : Json → List DeviceCertificateEntry × List CertificateError
  map_record (obj raw) = with_id raw (read_optional_string raw "id")
  map_record _ = ([], record_not_an_object ∷ [])

  unfoldable pub map_records : List Json → List DeviceCertificateEntry × List CertificateError
  map_records [] = ([], [])
  map_records (raw ∷ rest) =
      let (entries, errors) = map_record raw in
      let (entries', errors') = map_records rest in (entries ++ entries', errors ++ errors')

  abbrev pub of_items : Option Json → List DeviceCertificateEntry × List CertificateError
  of_items (some (arr raw)) = map_records (items raw)
  of_items _ = ([], response_without_items ∷ [])

  unfoldable pub map_device_certificates_response :
      Json → List DeviceCertificateEntry × List CertificateError
  map_device_certificates_response (obj payload) = of_items (get "items" payload)
  map_device_certificates_response _ = ([], response_not_an_object ∷ [])
