-- ===== src/Backends/Fmc/TokenManager/Reauth.antt =====
-- What a caller of the token manager meets after a login.
use ftd_metrics_exporter.Prelude.{
  ℕ, suc, ◌+◌, ◌≤◌, ◌<◌, ◌≡◌, ◌≢◌, ◌⊎◌, String, true, false, Option, none, some, arith, eq_iff,
}
use ftd_metrics_exporter.Backends.Fmc.TokenManager.{
  max_refreshes, proactive_refresh_ms, TokenManager, Flight, generating, refreshing, rejects,
  resolves, starts, acquire_single_flight, do_refresh_token, get_token, force_reauth, close,
  closed_error, status, settles_with, goes_on, apply_successful_auth, login_accepted,
  generate_response, refresh_accepted, refresh_response, respond,
}

-- The manager is open, and its credentials were not refused.
abbrev pub IsOpen : TokenManager → Type 0
IsOpen m = (m.closed ≡ false) × (m.credentials_failure ≡ none)

-- Token `a` is current since the time `at`, with `k` refreshes since the last login.
pub record Holds (m : TokenManager) (a : String) (at k : ℕ) : Type 0 where
  pub opened : IsOpen m
  pub idle : m.in_flight ≡ none
  pub current : m.state.access_token ≡ some a
  pub dated : m.state.proactive_refresh_at ≡ some (at + proactive_refresh_ms)
  pub refreshed : m.state.refresh_count ≡ k

-- A POST that is answered by 204 with an access token makes that token current: after a login no
-- refresh is counted, after a refresh one more, and the promise settles with the token.
pub respond-Holds :
    (m : TokenManager) (f : Flight) (a : String) (refresh domain_uuid : Option String) (at : ℕ)
    → IsOpen m
    → Holds
        (respond m f (status 204 (some a) refresh domain_uuid) at).0
        a
        at
        (elim f [ generating _ ↦ 0 | refreshing ↦ suc m.state.refresh_count ])
      × ((respond m f (status 204 (some a) refresh domain_uuid) at).1 ≡ settles_with a)
unfolding respond generate_response refresh_response login_accepted refresh_accepted
    apply_successful_auth
respond-Holds m (generating reauth) a refresh domain_uuid at h = ground arith
respond-Holds m refreshing a refresh domain_uuid at h = ground arith

-- While an open manager with nothing in flight holds a token, `getToken` answers with it and
-- changes nothing for 24 minutes after the token came; from then on it starts a refresh if fewer
-- than three were made since the last login and a refresh token is there, and a login otherwise.
pub get_token-Holds :
    (m : TokenManager) (a : String) (at k now : ℕ)
    → Holds m a at k
    → ((now < at + proactive_refresh_ms) × (get_token m now ≡ (m, resolves a)))
      ⊎ ((at + proactive_refresh_ms ≤ now)
          × (k < max_refreshes)
          × (m.state.refresh_token ≢ none)
          × ((get_token m now).1 ≡ starts refreshing))
      ⊎ ((at + proactive_refresh_ms ≤ now)
          × ((max_refreshes ≤ k) ⊎ (m.state.refresh_token ≡ none))
          × ((get_token m now).1 ≡ starts (generating true)))
unfolding get_token acquire_single_flight do_refresh_token
get_token-Holds m a at k now h = ground arith

-- Of the callers whose requests met a 401 with the token that an open manager with nothing in
-- flight holds, the first starts a login; once that login has given another token, a later one is
-- answered with the new token, sends nothing and changes nothing.
pub force_reauth_once :
    (m : TokenManager) (stale a : String) (refresh domain_uuid : Option String) (since at k : ℕ)
    → Holds m stale since k
    → a ≢ stale
    → let (m₁, reply) = force_reauth m stale in
      let m₂ = (respond m₁ (generating true) (status 204 (some a) refresh domain_uuid) at).0 in
      (reply ≡ starts (generating true)) × (force_reauth m₂ stale ≡ (m₂, resolves a))
unfolding force_reauth acquire_single_flight respond generate_response login_accepted
    apply_successful_auth
force_reauth_once m stale a refresh domain_uuid since at k h ne =
    ground (arith, eq_iff stale stale, eq_iff a stale)

-- In an open manager, a refresh that is answered by another status than 204 leaves neither token
-- behind and goes on with a login, and that login, if it is answered by 204 with a token, makes
-- that token current with no refresh counted: a failed refresh has a way back.
pub refresh_recovers :
    (m : TokenManager) (code : ℕ) (x y z : Option String) (a : String)
    (refresh domain_uuid : Option String) (now at : ℕ)
    → IsOpen m
    → code ≢ 204
    → let (m₁, following) = respond m refreshing (status code x y z) now in
      (following ≡ goes_on (generating true))
      × (m₁.state.access_token ≡ none)
      × (m₁.state.refresh_token ≡ none)
      × (m₁.in_flight ≡ some (generating true))
      × Holds (respond m₁ (generating true) (status 204 (some a) refresh domain_uuid) at).0 a at 0
unfolding respond refresh_response generate_response login_accepted apply_successful_auth
refresh_recovers m code x y z a refresh domain_uuid now at h ne = ground arith

-- `close` does not reach a POST that is in flight: if it is answered by 204 with a token after the
-- manager was closed, that token is stored again. `getToken` and `forceReauth` are refused from then
-- on and leave it where it is; only another `close` drops it.
pub close-respond :
    (m : TokenManager) (f : Flight) (a stale : String) (refresh domain_uuid : Option String)
    (now at : ℕ)
    → m.in_flight ≡ some f
    → let m' = (respond (close m) f (status 204 (some a) refresh domain_uuid) at).0 in
      (m'.state.access_token ≡ some a)
      × (m'.state.refresh_token ≡ refresh)
      × (get_token m' now ≡ (m', rejects closed_error))
      × (force_reauth m' stale ≡ (m', rejects closed_error))
      × ((close m').state.access_token ≡ none)
      × ((close m').state.refresh_token ≡ none)
unfolding close respond generate_response refresh_response login_accepted refresh_accepted
    apply_successful_auth get_token force_reauth
close-respond m (generating reauth) a stale refresh domain_uuid now at h = ground arith
close-respond m refreshing a stale refresh domain_uuid now at h = ground arith
