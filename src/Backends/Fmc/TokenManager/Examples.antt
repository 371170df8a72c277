-- ===== src/Backends/Fmc/TokenManager/Examples.antt =====
-- The theorems about the token manager at concrete inputs.
use ftd_metrics_exporter.Prelude.{suc, ◌≤◌, ◌≡◌, ◌⊎◌, refl, arith, eq_iff, true, false, none, some}
use ftd_metrics_exporter.Backends.Fmc.TokenManager.{
  max_refreshes, proactive_refresh_ms, TokenManager, generating, refreshing, Reply, rejects,
  resolves, starts, get_token, force_reauth, close, closed_error, status, respond,
}
use ftd_metrics_exporter.Backends.Fmc.TokenManager.Laws.{
  System, after_reply, gets, here, next, initial, Reach-one_post, answered,
}
use ftd_metrics_exporter.Backends.Fmc.TokenManager.Reauth.{Holds, force_reauth_once, close-respond}

abbrev asked : System
asked = after_reply initial (get_token initial.manager 0)

Reach-one_post_example :
    (asked.ended ≤ asked.sent)
    × (asked.sent ≤ suc asked.ended)
    × (asked.manager.state.refresh_count ≤ max_refreshes)
    × ((asked.manager.credentials_failure ≡ none) ⊎ (asked.manager.in_flight ≡ none))
Reach-one_post_example = Reach-one_post asked (next here (gets 0))

-- The first login is refused, and another token is asked for.
abbrev locked : System
locked = answered asked false 401 none none none 5

abbrev asked_again : System
asked_again = after_reply locked (get_token locked.manager 9)

-- The manager that holds a token since a login at time 0, one refresh before.
abbrev holding : TokenManager
holding = record {
  state = record {
    access_token = some "a";
    refresh_token = some "r";
    domain_uuid_header = some "d";
    refresh_count = 1;
    proactive_refresh_at = some proactive_refresh_ms;
    has_ever_authenticated = true;
  };
  in_flight = none;
  closed = false;
  credentials_failure = none;
}

holding-Holds : Holds holding "a" 0 1
holding-Holds = record {
  opened = (refl, refl);
  idle = refl;
  current = refl;
  dated = refl;
  refreshed = refl;
}

abbrev refused_once : TokenManager × Reply
refused_once = force_reauth holding "a"

abbrev renewed : TokenManager
renewed = (respond refused_once.0 (generating true) (status 204 (some "b") (some "s") none) 50).0

force_reauth_once_example :
    (refused_once.1 ≡ starts (generating true))
    × (force_reauth renewed "a" ≡ (renewed, resolves "b"))
force_reauth_once_example =
    force_reauth_once holding "a" "b" (some "s") none 0 50 1 holding-Holds
      (ground (arith, eq_iff "b" "a"))

abbrev fallen : TokenManager
fallen = (respond holding refreshing (status 401 none none none) 20).0

abbrev flying : TokenManager
flying = record holding { in_flight = some refreshing }

abbrev late : TokenManager
late = (respond (close flying) refreshing (status 204 (some "b") (some "s") none) 50).0

close-respond_example :
    (late.state.access_token ≡ some "b")
    × (late.state.refresh_token ≡ some "s")
    × (get_token late 40 ≡ (late, rejects closed_error))
    × (force_reauth late "a" ≡ (late, rejects closed_error))
    × ((close late).state.access_token ≡ none)
    × ((close late).state.refresh_token ≡ none)
close-respond_example = close-respond flying refreshing "b" "a" (some "s") none 40 50 refl
