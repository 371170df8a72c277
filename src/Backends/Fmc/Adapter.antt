-- ===== src/Backends/Fmc/Adapter.antt =====
-- src/backends/fmc/adapter.ts: the requests of a snapshot.
-- The token manager's calls, the HTTP client and `JSON.parse` are parameters: what each call gives, or
-- the cause that it throws. The message on a body that is no JSON leaves out the parser's own. A run gives its result and the calls that it made.
pub mod Laws
pub mod Snapshot
pub mod Coverage
pub mod Lifetime
pub mod Closing
pub mod Wire
use ftd_metrics_exporter.Prelude.{
  ℕ, String, Bool, true, false, not, List, [], ◌∷◌, ◌++◌, Option, none, some, ◌==◌, if◌then◌else◌,
}
use ftd_metrics_exporter.Prelude.Int.{ℤ}
use ftd_metrics_exporter.Prelude.Text.{concat}
use ftd_metrics_exporter.Prelude.Json.{Json}
use ftd_metrics_exporter.Http.Errors.{HttpError, Cause, http, classify_network_error}
use ftd_metrics_exporter.Backends.Groups.{parse_error}
use ftd_metrics_exporter.Backends.Fmc.Map.{
  FmcMetricFamily, family_label, FmcFamilyMapResult, nothing, map_fmc_family_response,
}

pub data Outcome (A : Type 0) : Type 0 where
  returns : A → Outcome A
  throws : Cause → Outcome A

-- A call that a run makes.
pub data Call : Type 0 where
  get_token : Call
  fetch : (token : String) → Call
  force_reauth : (stale : String) → Call

abbrev pub is_unauthorized : Option ℕ → Bool
is_unauthorized none = false
is_unauthorized (some status) = status == 401

-- `fetch_once` is told how many fetches came before it.
module _ (token : Outcome String) (fetch_once : (before : ℕ) → (token : String) → Outcome String)
    (reauth : (stale : String) → Outcome String) where
  abbrev pub second_fetch : (stale : String) → Outcome String → Outcome String × List Call
  second_fetch stale (throws cause) = (throws cause, force_reauth stale ∷ [])
  second_fetch stale (returns fresh) = (fetch_once 1 fresh, force_reauth stale ∷ fetch fresh ∷ [])

  abbrev pub after_first : (stale : String) → Outcome String → Outcome String × List Call
  after_first stale (returns body) = (returns body, [])
  after_first stale (throws cause) =
      let http_error = classify_network_error cause in
      if not (is_unauthorized http_error.status_code)
      then (throws (http http_error), [])
      else second_fetch stale (reauth stale)

  abbrev pub with_token : Outcome String → Outcome String × List Call
  with_token (throws cause) = (throws cause, [])
  with_token (returns t) =
      let (result, calls) = after_first t (fetch_once 0 t) in (result, fetch t ∷ calls)

  -- `fetchWithReauth` and `fetchWithReauthGeneric`.
  unfoldable pub fetch_with_reauth : Outcome String × List Call
  fetch_with_reauth = let (result, calls) = with_token token in (result, get_token ∷ calls)

module _ (parse_json : String → Option Json) (new_date : String → Option ℤ) (device_id : String)
    (family : FmcMetricFamily) where
  abbrev pub failed_family : (message : String) → FmcFamilyMapResult
  failed_family message = nothing (
      parse_error device_id (family_label family) (concat (family_label family ∷ message ∷ []))
      ∷ [])

  abbrev pub of_payload : Option Json → FmcFamilyMapResult
  of_payload none = failed_family " response body is not valid JSON"
  of_payload (some payload) = map_fmc_family_response new_date device_id payload family

  -- `fetchFamilyForDevice`, from what `fetchWithReauth` gave.
  unfoldable pub fetch_family_for_device : Outcome String → FmcFamilyMapResult
  fetch_family_for_device (throws cause) =
      failed_family (concat (" request failed: " ∷ (classify_network_error cause).message ∷ []))
  fetch_family_for_device (returns body) = of_payload (parse_json body)
