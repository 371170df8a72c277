-- ===== src/Backends/Fmc/Filter.antt =====
-- src/backends/fmc/filter.ts: the filter of a request and its URL.
-- `encodeURIComponent` and the text of `URLSearchParams` are parameters. A thrown error is `none`.
pub mod Laws
use Prim.Native.Char.{code}
use Prim.Native.String
use ftd_metrics_exporter.Prelude.{
  ℕ, String, Bool, true, false, ◌&&◌, ◌||◌, List, [], ◌∷◌, Option, none, some, leb, ◌==◌,
  if◌then◌else◌,
}
use ftd_metrics_exporter.Prelude.Text.{concat, is_digit}
use ftd_metrics_exporter.Backends.Fmc.Map.{FmcMetricFamily, family_label}

-- [0-9a-fA-F]
abbrev pub is_hex : ℕ → Bool
is_hex c = is_digit c || ((leb b'a' c && leb c b'f') || (leb b'A' c && leb c b'F'))

-- The test of a pattern in which `h` stands for a hexadecimal digit and any other character for itself.
unfoldable pub fits_hex : (pattern text : String) → Bool
fits_hex String.[] String.[] = true
fits_hex String.[] (String.◌∷◌ c s) = false
fits_hex (String.◌∷◌ p ps) String.[] = false
fits_hex (String.◌∷◌ p ps) (String.◌∷◌ c s) =
    (if code p == b'h' then is_hex (code c) else code p == code c) && fits_hex ps s

-- The test of UUID_PATTERN.
unfoldable pub is_uuid : String → Bool
is_uuid s = fits_hex "hhhhhhhh-hhhh-hhhh-hhhh-hhhhhhhhhhhh" s

unfoldable pub filter_text : (device_uuid family time_range : String) → String
filter_text device_uuid family time_range =
    concat (
      "device_uuid:" ∷ device_uuid ∷ ";" ∷ "metric:" ∷ family ∷ ";" ∷ "timeRange:" ∷ time_range
      ∷ [])

unfoldable pub build_fmc_filter :
    (device_uuid : String) → FmcMetricFamily → (time_range : String) → Option String
build_fmc_filter device_uuid family time_range =
    if is_uuid device_uuid
    then some (filter_text device_uuid (family_label family) time_range)
    else none

module _ (encode_component search_params : String → String) where
  abbrev pub url_of : (host domain_uuid : String) → Option String → Option String
  url_of host domain_uuid none = none
  url_of host domain_uuid (some filter) = some (
      concat (
        "https://"
        ∷ host
        ∷ "/api/fmc_config/v1/domain/"
        ∷ encode_component domain_uuid
        ∷ "/health/aggregatemetrics?"
        ∷ search_params filter
        ∷ []))

  unfoldable pub build_aggregate_metrics_url :
      (host domain_uuid device_uuid : String)
      → FmcMetricFamily
      → (time_range : String) → Option String
  build_aggregate_metrics_url host domain_uuid device_uuid family time_range =
      url_of host domain_uuid (build_fmc_filter device_uuid family time_range)
