-- ===== src/Backends/Fmc/TokenManager/Laws.antt =====
-- What holds of the token manager however calls and responses follow one another.
use ftd_metrics_exporter.Prelude.{
  ℕ, suc, ◌+◌, ◌≤◌, ◌<◌, ◌≡◌, refl, ◌⊎◌, inl, String, Bool, Option, none, some, arith,
}
use ftd_metrics_exporter.Http.Errors.{HttpError}
use ftd_metrics_exporter.Backends.Fmc.TokenManager.{
  max_refreshes, TokenManager, Flight, generating, refreshing, Reply, rejects, closed_error,
  upstream, starts, create_fmc_token_manager, acquire_single_flight, do_refresh_token, get_token,
  force_reauth, close, Response, broken, status, Next, goes_on, apply_successful_auth,
  login_refused, login_accepted, generate_response, refresh_accepted, refresh_response, respond,
}

-- The manager, with the POSTs that an observer of the network has seen, sent and ended.
pub record System : Type 0 where
  pub manager : TokenManager
  pub sent : ℕ
  pub ended : ℕ

abbrev pub after_reply : System → TokenManager × Reply → System
after_reply s (m, starts flight) = record { manager = m; sent = suc s.sent; ended = s.ended }
after_reply s (m, _) = record { manager = m; sent = s.sent; ended = s.ended }

abbrev pub after_response : System → TokenManager × Next → System
after_response s (m, goes_on flight) = record {
  manager = m;
  sent = suc s.sent;
  ended = suc s.ended;
}
after_response s (m, _) = record { manager = m; sent = s.sent; ended = suc s.ended }

pub data Step : System → System → Type 0 where
  gets : {s : System} (now : ℕ) → Step s (after_reply s (get_token s.manager now))
  forces : {s : System} (stale : String) → Step s (after_reply s (force_reauth s.manager stale))
  closes : {s : System} → Step s (record s { manager = close s.manager })
  ends :
      {s : System} (flight : Flight) (r : Response) (now : ℕ)
      → s.manager.in_flight ≡ some flight
      → Step s (after_response s (respond s.manager flight r now))

pub data Reach (s : System) : System → Type 0 where
  here : Reach s s
  next : {t u : System} → Reach s t → Step t u → Reach s u

abbrev pub flights : Option Flight → ℕ
flights none = 0
flights (some _) = 1

pub record IsSound (s : System) : Type 0 where
  pub single : s.sent ≡ s.ended + flights s.manager.in_flight
  pub refreshes : s.manager.state.refresh_count ≤ max_refreshes
  pub refreshable :
      s.manager.in_flight ≡ some refreshing → s.manager.state.refresh_count < max_refreshes
  pub latched : (s.manager.credentials_failure ≡ none) ⊎ (s.manager.in_flight ≡ none)

get_token-IsSound :
    (s : System) (now : ℕ) → IsSound s → IsSound (after_reply s (get_token s.manager now))
unfolding get_token acquire_single_flight do_refresh_token
get_token-IsSound s now v = ground arith

force_reauth-IsSound :
    (s : System) (stale : String)
    → IsSound s
    → IsSound (after_reply s (force_reauth s.manager stale))
unfolding force_reauth acquire_single_flight
force_reauth-IsSound s stale v = ground arith

generate_response-IsSound :
    (s : System) (reauth : Bool) (r : Response) (now : ℕ)
    → s.manager.in_flight ≡ some (generating reauth)
    → IsSound s
    → IsSound (after_response s (generate_response s.manager r now))
unfolding generate_response login_refused login_accepted apply_successful_auth
generate_response-IsSound s reauth (broken c) now h v = ground arith
generate_response-IsSound s reauth (status code access refresh domain_uuid) now h v = ground arith

refresh_response-IsSound :
    (s : System) (r : Response) (now : ℕ)
    → s.manager.in_flight ≡ some refreshing
    → IsSound s
    → IsSound (after_response s (refresh_response s.manager r now))
unfolding refresh_response refresh_accepted apply_successful_auth
refresh_response-IsSound s (broken c) now h v = ground arith
refresh_response-IsSound s (status code access refresh domain_uuid) now h v = ground arith

Step-IsSound : {s t : System} → Step s t → IsSound s → IsSound t
unfolding close respond
Step-IsSound (gets {s} now) v = get_token-IsSound s now v
Step-IsSound (forces {s} stale) v = force_reauth-IsSound s stale v
Step-IsSound closes v = ground arith
Step-IsSound (ends {s} (generating reauth) r now h) v = generate_response-IsSound s reauth r now h v
Step-IsSound (ends {s} refreshing r now h) v = refresh_response-IsSound s r now h v

Reach-IsSound : {s t : System} → IsSound s → Reach s t → IsSound t
Reach-IsSound v here = v
Reach-IsSound v (next r st) = Step-IsSound st (Reach-IsSound v r)

abbrev pub initial : System
initial = record { manager = create_fmc_token_manager; sent = 0; ended = 0 }

initial-IsSound : IsSound initial
unfolding create_fmc_token_manager
initial-IsSound = record {
  single = refl;
  refreshes = omega arith;
  refreshable = λ e. cc;
  latched = inl refl;
}

-- However calls of `getToken`, `forceReauth` and `close` and the ends of POSTs follow one another, at
-- most one POST is under way, the count of refreshes since the last login is at most three, and a
-- refusal of the credentials is latched only when nothing is in flight.
pub Reach-one_post :
    (t : System)
    → Reach initial t
    → (t.ended ≤ t.sent)
      × (t.sent ≤ suc t.ended)
      × (t.manager.state.refresh_count ≤ max_refreshes)
      × ((t.manager.credentials_failure ≡ none) ⊎ (t.manager.in_flight ≡ none))
Reach-one_post t r =
    let v = Reach-IsSound initial-IsSound r in ground (arith, v.single, v.refreshes, v.latched)

-- The credentials were refused with `e`, and nothing is in flight.
abbrev pub IsLatched : HttpError → System → Type 0
IsLatched e s = (s.manager.credentials_failure ≡ some e) × (s.manager.in_flight ≡ none)

-- The system after a login that was in flight is answered with a status.
abbrev pub answered : System → Bool → ℕ → (access refresh domain_uuid : Option String) → ℕ → System
answered s reauth code access refresh domain_uuid now =
    after_response s
      (respond s.manager (generating reauth) (status code access refresh domain_uuid) now)

-- A call is refused, either as on a closed manager or with the error `e`.
abbrev pub IsRefused : HttpError → Reply → Type 0
IsRefused e reply = (reply ≡ rejects closed_error) ⊎ (reply ≡ rejects (upstream e))
