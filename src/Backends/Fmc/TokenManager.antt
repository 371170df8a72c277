-- ===== src/Backends/Fmc/TokenManager.antt =====
-- src/backends/fmc/token-manager.ts: the FMC token lifecycle.
-- A call of `getToken` or `forceReauth` runs up to its first wait without interruption: it rejects,
-- resolves, joins the request that is in flight, or starts one. What a started request does when
-- its response comes is `respond`; when its promise settles, `inFlight` is cleared in the same
-- step, so that the microtask between the two is not told apart. The headers of a response are read
-- already: `access`, `refresh` and `domain_uuid` are the first values of the three headers. The
-- logger and the callbacks of the metrics are taken to return.
pub mod Laws
pub mod Reauth
mod Examples
use ftd_metrics_exporter.Prelude.{
  ℕ, suc, ◌+◌, ◌*◌, ◌/◌, String, Bool, true, false, not, ◌&&◌, Option, none, some, ltb, leb, ◌==◌,
  str_eq, if◌then◌else◌, ◌≡◌,
}
use ftd_metrics_exporter.Http.Errors.{
  HttpErrorClass, PollErrorReason, HttpError, Cause, http, classify_status_code,
}

abbrev pub token_lifetime_ms : ℕ
token_lifetime_ms = 30 * 60 * 1000

-- 80 percent of the lifetime.
abbrev pub proactive_refresh_ms : ℕ
proactive_refresh_ms = token_lifetime_ms * 8 / 10

abbrev pub max_refreshes : ℕ
max_refreshes = 3

pub record TokenState : Type 0 where
  pub access_token : Option String
  pub refresh_token : Option String
  pub domain_uuid_header : Option String
  pub refresh_count : ℕ
  pub proactive_refresh_at : Option ℕ
  pub has_ever_authenticated : Bool

-- The POST that is in flight: `generatetoken`, as a login or as a re-authentication, or
-- `refreshtoken`.
pub data Flight : Type 0 where
  generating : (is_reauth : Bool) → Flight
  refreshing : Flight

pub record TokenManager : Type 0 where
  pub state : TokenState
  pub in_flight : Option Flight
  pub closed : Bool
  pub credentials_failure : Option HttpError

pub data Failure : Type 0 where
  closed_error : Failure
  upstream : HttpError → Failure
  transport : Cause → Failure

-- How a call goes on.
pub data Reply : Type 0 where
  rejects : Failure → Reply
  resolves : String → Reply
  joins : Reply
  starts : Flight → Reply

unfoldable pub create_fmc_token_manager : TokenManager
create_fmc_token_manager = record {
  state = record {
    access_token = none;
    refresh_token = none;
    domain_uuid_header = none;
    refresh_count = 0;
    proactive_refresh_at = none;
    has_ever_authenticated = false;
  };
  in_flight = none;
  closed = false;
  credentials_failure = none;
}

-- `acquireSingleFlight`, for a factory that changes the manager and sends a POST.
unfoldable pub acquire_single_flight : TokenManager → TokenManager × Flight → TokenManager × Reply
acquire_single_flight m (started, flight) = elim m.in_flight [
  | some _ ↦ (m, joins)
  | none ↦ (record started { in_flight = some flight }, starts flight)
]

-- `doRefreshToken` up to its wait: without a pair of tokens it is a login.
unfoldable pub do_refresh_token : TokenManager → Flight
do_refresh_token m = elim m.state.access_token [
  | none ↦ generating true
  | some _ ↦ elim m.state.refresh_token [ none ↦ generating true | some _ ↦ refreshing ]
]

abbrev pub is_past : Option ℕ → ℕ → Bool
is_past none now = false
is_past (some at) now = leb at now

unfoldable pub get_token : TokenManager → (now : ℕ) → TokenManager × Reply
get_token m now = if m.closed then (m, rejects closed_error) else elim m.credentials_failure [
  | some e ↦ (m, rejects (upstream e))
  | none ↦ elim m.state.access_token [
    | none ↦ acquire_single_flight m (m, generating m.state.has_ever_authenticated)
    | some token ↦
        if is_past m.state.proactive_refresh_at now
        then acquire_single_flight m (
          m,
          if ltb m.state.refresh_count max_refreshes then do_refresh_token m else generating true,
        )
        else (m, resolves token)
  ]
]

abbrev pub cleared : TokenManager → TokenManager
cleared m = record m { state = record m.state { access_token = none; refresh_token = none } }

unfoldable pub force_reauth : TokenManager → (stale_token : String) → TokenManager × Reply
force_reauth m stale_token =
    if m.closed then (m, rejects closed_error) else elim m.credentials_failure [
      | some e ↦ (m, rejects (upstream e))
      | none ↦ elim m.in_flight [
        | some _ ↦ (m, joins)
        | none ↦ elim m.state.access_token [
          | none ↦ acquire_single_flight m (cleared m, generating true)
          | some token ↦
              if not (str_eq token stale_token)
              then (m, resolves token)
              else acquire_single_flight m (cleared m, generating true)
        ]
      ]
    ]

unfoldable pub close : TokenManager → TokenManager
close m = record (cleared m) { closed = true }

-- How a POST ends: no response, or one with its status and headers.
pub data Response : Type 0 where
  broken : Cause → Response
  status : ℕ → (access refresh domain_uuid : Option String) → Response

-- What the request that was in flight does next: its promise settles, or it sends another POST.
pub data Next : Type 0 where
  settles_with : String → Next
  fails_with : Failure → Next
  goes_on : Flight → Next

abbrev pub missing_token_error : HttpError
missing_token_error = record {
  name = "HttpError";
  error_class = HttpErrorClass.auth_fatal;
  reason = PollErrorReason.auth;
  message =
      "FMC auth response (204) is missing the X-auth-access-token header — check for a reverse proxy or load balancer stripping response headers between the exporter and FMC";
  status_code = none;
  retry_after_ms = none;
}

abbrev pub or_else : Option String → Option String → Option String
or_else (some s) old = some s
or_else none old = old

-- `applySuccessfulAuth` with an access token.
unfoldable pub apply_successful_auth :
    TokenManager
    → (access : String) → (refresh domain_uuid : Option String) → (now : ℕ) → TokenManager
apply_successful_auth m access refresh domain_uuid now = record m {
  state = record m.state {
    access_token = some access;
    refresh_token = refresh;
    domain_uuid_header = or_else domain_uuid m.state.domain_uuid_header;
    proactive_refresh_at = some (now + proactive_refresh_ms);
  };
}

abbrev pub landed : TokenManager → TokenManager
landed m = record m { in_flight = none }

abbrev pub is_auth_fatal : HttpError → Bool
is_auth_fatal e = elim e.error_class [ HttpErrorClass.auth_fatal ↦ true | _ ↦ false ]

-- A `generatetoken` with a status other than 204: a refusal of the credentials is latched.
unfoldable pub login_refused : TokenManager → ℕ → TokenManager × Next
login_refused m code =
    let e = classify_status_code code none in
    (
      if is_auth_fatal e then record (landed m) { credentials_failure = some e } else landed m,
      fails_with (upstream e),
    )

unfoldable pub login_accepted :
    TokenManager → (access refresh domain_uuid : Option String) → (now : ℕ) → TokenManager × Next
login_accepted m none refresh domain_uuid now =
    (landed m, fails_with (upstream missing_token_error))
login_accepted m (some access) refresh domain_uuid now =
    let m' = apply_successful_auth (landed m) access refresh domain_uuid now in
    (
      record m' { state = record m'.state { refresh_count = 0; has_ever_authenticated = true } },
      settles_with access,
    )

-- `doGenerateToken` behind its wait.
unfoldable pub generate_response : TokenManager → Response → (now : ℕ) → TokenManager × Next
generate_response m (broken cause) now = (landed m, fails_with (transport cause))
generate_response m (status code access refresh domain_uuid) now =
    if not (code == 204)
    then login_refused m code
    else login_accepted m access refresh domain_uuid now

unfoldable pub refresh_accepted :
    TokenManager → (access refresh domain_uuid : Option String) → (now : ℕ) → TokenManager × Next
refresh_accepted m none refresh domain_uuid now =
    (landed m, fails_with (upstream missing_token_error))
refresh_accepted m (some access) refresh domain_uuid now =
    let m' = apply_successful_auth (landed m) access refresh domain_uuid now in
    (
      record m' { state = record m'.state { refresh_count = m'.state.refresh_count + 1 } },
      settles_with access,
    )

-- `doRefreshToken` behind its wait: any status other than 204 falls back to a login.
unfoldable pub refresh_response : TokenManager → Response → (now : ℕ) → TokenManager × Next
refresh_response m (broken cause) now = (landed m, fails_with (transport cause))
refresh_response m (status code access refresh domain_uuid) now =
    if not (code == 204)
    then (record (cleared m) { in_flight = some (generating true) }, goes_on (generating true))
    else refresh_accepted m access refresh domain_uuid now

unfoldable pub respond : TokenManager → Flight → Response → (now : ℕ) → TokenManager × Next
respond m (generating is_reauth) r now = generate_response m r now
respond m refreshing r now = refresh_response m r now
