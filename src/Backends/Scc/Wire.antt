-- ===== src/Backends/Scc/Wire.antt =====
-- src/backends/scc/adapter.ts: `fetchLicenseFromWire` and `fetchCertificatesFromWire`, from what the
-- HTTP client gave, for an adapter that `init` has set up, with a domain for the certificates.
use ftd_metrics_exporter.Prelude.{ℕ, String, List, Option, none, some}
use ftd_metrics_exporter.Prelude.Int.{ℤ}
use ftd_metrics_exporter.Prelude.Json.{Json}
use ftd_metrics_exporter.Backends.Licenses.{LicenseStatus, LicenseError, map_license_response}
use ftd_metrics_exporter.Backends.Certificates.{
  DeviceCertificateEntry, CertificateError, map_device_certificates_response,
}
use ftd_metrics_exporter.Backends.Fmc.Adapter.{Outcome, returns, throws}
use ftd_metrics_exporter.Backends.Fmc.Adapter.Wire.{
  Refreshed, request_failed, not_json, of_license, of_certificates,
}
use ftd_metrics_exporter.Backends.Scc.Inventory.{DeviceInventoryEntry}
use ftd_metrics_exporter.Backends.Scc.Adapter.{device_by_uid_on_fmc}

module _ (parse_json : String → Option Json) (new_date : String → Option ℤ)
    (utc_fields : ℤ → List ℕ) where
  abbrev pub license_of_payload : Option Json → Refreshed LicenseError (Option LicenseStatus)
  license_of_payload none = not_json
  license_of_payload (some payload) =
      let r = map_license_response new_date utc_fields payload in
      of_license parse_json new_date utc_fields r.status r.parse_errors

  unfoldable pub fetch_license_from_wire :
      Outcome String → Refreshed LicenseError (Option LicenseStatus)
  fetch_license_from_wire (throws cause) = request_failed cause
  fetch_license_from_wire (returns body) = license_of_payload (parse_json body)

  -- The devices are those that the inventory has at hand.
  abbrev pub certificates_of_payload :
      List DeviceInventoryEntry
      → Option Json
      → Refreshed CertificateError (List DeviceCertificateEntry)
  certificates_of_payload devices none = not_json
  certificates_of_payload devices (some payload) =
      let (entries, errors) =
        map_device_certificates_response new_date utc_fields (device_by_uid_on_fmc devices)
          payload in
      of_certificates parse_json new_date utc_fields entries errors

  unfoldable pub fetch_certificates_from_wire :
      List DeviceInventoryEntry
      → Outcome String
      → Refreshed CertificateError (List DeviceCertificateEntry)
  fetch_certificates_from_wire devices (throws cause) = request_failed cause
  fetch_certificates_from_wire devices (returns body) =
      certificates_of_payload devices (parse_json body)
