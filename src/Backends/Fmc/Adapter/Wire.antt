-- ===== src/Backends/Fmc/Adapter/Wire.antt =====
-- src/backends/fmc/adapter.ts: `fetchLicenseFromWire` and `fetchCertificatesFromWire`, from what
-- `fetchWithReauthGeneric` gave, for an adapter that `init` has set up.
use ftd_metrics_exporter.Prelude.{
  ℕ, String, List, [], ◌∷◌, Option, none, some, str_eq, if◌then◌else◌,
}
use ftd_metrics_exporter.Prelude.Int.{ℤ}
use ftd_metrics_exporter.Prelude.Json.{Json}
use ftd_metrics_exporter.Http.Errors.{Cause}
use ftd_metrics_exporter.Backends.Licenses.{LicenseStatus, LicenseError, map_license_response}
use ftd_metrics_exporter.Backends.Certificates.{
  Device, DeviceCertificateEntry, CertificateError, map_device_certificates_response,
}
use ftd_metrics_exporter.Backends.Fmc.Discovery.{FmcDiscoveredDevice}
use ftd_metrics_exporter.Backends.Fmc.Adapter.{Outcome, returns, throws}

-- What a refresh ends with: its value, or why it failed; `E` are the parse errors that are handed on.
pub data Refreshed (E A : Type 0) : Type 0 where
  succeeds : (value : A) → (reported : List E) → Refreshed E A
  request_failed : Cause → Refreshed E A
  not_json : Refreshed E A
  no_record : (reported : List E) → Refreshed E A

module _ (parse_json : String → Option Json) (new_date : String → Option ℤ)
    (utc_fields : ℤ → List ℕ) where
  abbrev pub of_license :
      Option LicenseStatus → List LicenseError → Refreshed LicenseError (Option LicenseStatus)
  of_license none (e ∷ es) = no_record (e ∷ es)
  of_license status errors = succeeds status errors

  abbrev pub license_of_payload : Option Json → Refreshed LicenseError (Option LicenseStatus)
  license_of_payload none = not_json
  license_of_payload (some payload) =
      let r = map_license_response new_date utc_fields payload in of_license r.status r.parse_errors

  unfoldable pub fetch_license_from_wire :
      Outcome String → Refreshed LicenseError (Option LicenseStatus)
  fetch_license_from_wire (throws cause) = request_failed cause
  fetch_license_from_wire (returns body) = license_of_payload (parse_json body)

  -- `new Map(devices.map((device) => [device.id, device]))`, in which a later device replaces an earlier one.
  unfoldable pub device_by_id : List FmcDiscoveredDevice → (raw_id : String) → Option Device
  device_by_id [] raw_id = none
  device_by_id (d ∷ devices) raw_id = elim (device_by_id devices raw_id) [
    | some later ↦ some later
    | none ↦
        if str_eq d.id raw_id
        then some (record { device_uid = d.id; device_name = d.name })
        else none
  ]

  abbrev pub of_certificates :
      List DeviceCertificateEntry
      → List CertificateError
      → Refreshed CertificateError (List DeviceCertificateEntry)
  of_certificates [] (e ∷ es) = no_record (e ∷ es)
  of_certificates entries errors = succeeds entries errors

  abbrev pub certificates_of_payload :
      List FmcDiscoveredDevice
      → Option Json
      → Refreshed CertificateError (List DeviceCertificateEntry)
  certificates_of_payload devices none = not_json
  certificates_of_payload devices (some payload) =
      let (entries, errors) =
        map_device_certificates_response new_date utc_fields (device_by_id devices) payload in
      of_certificates entries errors

  unfoldable pub fetch_certificates_from_wire :
      List FmcDiscoveredDevice
      → Outcome String
      → Refreshed CertificateError (List DeviceCertificateEntry)
  fetch_certificates_from_wire devices (throws cause) = request_failed cause
  fetch_certificates_from_wire devices (returns body) =
      certificates_of_payload devices (parse_json body)
