-- ===== src/Backends/Fmc/Adapter/Laws.antt =====
-- src/backends/fmc/adapter.ts, `fetchWithReauth`: how often it asks, and with which token.
use ftd_metrics_exporter.Prelude.{
  ℕ, suc, ◌≡◌, ◌≢◌, ◌≤◌, ◌↔◌, refl, String, true, false, not, List, [], ◌∷◌, Option, none, some,
  if_cases, arith,
}
use ftd_metrics_exporter.Http.Errors.{Cause, http, classify_network_error}
use ftd_metrics_exporter.Backends.Fmc.Adapter.{
  Outcome, returns, throws, Call, get_token, fetch, force_reauth, is_unauthorized, second_fetch,
  after_first, with_token, fetch_with_reauth,
}

-- The error is a response with status 401.
abbrev pub IsUnauthorized : Cause → Type 0
IsUnauthorized cause = (classify_network_error cause).status_code ≡ some 401

is_unauthorized-true : (o : Option ℕ) → is_unauthorized o ≡ true → o ≡ some 401
is_unauthorized-true none h = ground arith
is_unauthorized-true (some n) h = ground arith

is_unauthorized-false : (o : Option ℕ) → is_unauthorized o ≡ false → o ≢ some 401
is_unauthorized-false none h = λ e. cc
is_unauthorized-false (some n) h = ground arith

-- How often a run fetches, and how often it authenticates again.
abbrev pub fetches : List Call → ℕ
fetches [] = 0
fetches (fetch token ∷ calls) = suc (fetches calls)
fetches (_ ∷ calls) = fetches calls

abbrev pub reauths : List Call → ℕ
reauths [] = 0
reauths (force_reauth stale ∷ calls) = suc (reauths calls)
reauths (_ ∷ calls) = reauths calls

module _ (token : Outcome String) (fetch_once : (before : ℕ) → (token : String) → Outcome String)
    (reauth : (stale : String) → Outcome String) where
  -- What a run gives and the calls that it makes, case by case.
  pub data Runs : Outcome String × List Call → Type 0 where
    no_token : {cause : Cause} → token ≡ throws cause → Runs (throws cause, get_token ∷ [])
    first_succeeds :
        {t body : String}
        → token ≡ returns t
        → fetch_once 0 t ≡ returns body
        → Runs (returns body, get_token ∷ fetch t ∷ [])
    first_fails :
        {t : String} {cause : Cause}
        → token ≡ returns t
        → fetch_once 0 t ≡ throws cause
        → (classify_network_error cause).status_code ≢ some 401
        → Runs (throws (http (classify_network_error cause)), get_token ∷ fetch t ∷ [])
    reauth_fails :
        {t : String} {cause cause' : Cause}
        → token ≡ returns t
        → fetch_once 0 t ≡ throws cause
        → IsUnauthorized cause
        → reauth t ≡ throws cause'
        → Runs (throws cause', get_token ∷ fetch t ∷ force_reauth t ∷ [])
    retried :
        {t fresh : String} {cause : Cause}
        → token ≡ returns t
        → fetch_once 0 t ≡ throws cause
        → IsUnauthorized cause
        → reauth t ≡ returns fresh
        → Runs (fetch_once 1 fresh, get_token ∷ fetch t ∷ force_reauth t ∷ fetch fresh ∷ [])

  second_fetch-Runs :
      (t : String) (cause : Cause)
      → token ≡ returns t
      → fetch_once 0 t ≡ throws cause
      → IsUnauthorized cause
      → (o : Outcome String) → reauth t ≡ o
      → Runs (
        (second_fetch token fetch_once reauth t o).0,
        get_token ∷ fetch t ∷ (second_fetch token fetch_once reauth t o).1,
      )
  second_fetch-Runs t cause e f u (returns fresh) r = retried e f u r
  second_fetch-Runs t cause e f u (throws cause') r = reauth_fails e f u r

  after_first-Runs :
      (t : String)
      → token ≡ returns t
      → (o : Outcome String) → fetch_once 0 t ≡ o
      → Runs (
        (after_first token fetch_once reauth t o).0,
        get_token ∷ fetch t ∷ (after_first token fetch_once reauth t o).1,
      )
  after_first-Runs t e (returns body) f = first_succeeds e f
  after_first-Runs t e (throws cause) f =
      if_cases (λ (r : Outcome String × List Call). Runs (r.0, get_token ∷ fetch t ∷ r.1))
        (not (is_unauthorized (classify_network_error cause).status_code)) _ _
        (λ h.
          first_fails e f
            (is_unauthorized-false (classify_network_error cause).status_code (ground (arith, h))))
        (λ h.
          second_fetch-Runs t cause e f
            (is_unauthorized-true (classify_network_error cause).status_code (ground (arith, h)))
            (reauth t) refl)

  with_token-Runs :
      (o : Outcome String)
      → token ≡ o
      → Runs (
        (with_token token fetch_once reauth o).0,
        get_token ∷ (with_token token fetch_once reauth o).1,
      )
  with_token-Runs (throws cause) e = no_token e
  with_token-Runs (returns t) e = after_first-Runs t e (fetch_once 0 t) refl

  -- The first fetch meets a response with status 401.
  abbrev pub IsRefused : Type 0
  IsRefused =
      (t : String) × (cause : Cause) × (token ≡ returns t)
      × (fetch_once 0 t ≡ throws cause)
      × IsUnauthorized cause

  abbrev pub IsCounted : List Call → Type 0
  IsCounted calls =
      (fetches calls ≤ suc (reauths calls))
      × (reauths calls ≤ 1)
      × ((reauths calls ≡ 1) ↔ IsRefused)

  Runs-IsCounted : {r : Outcome String × List Call} → Runs r → IsCounted r.1
  Runs-IsCounted (no_token e) =
      (omega arith, omega arith, ((λ h. absurd (omega arith)), (λ (t, c, e', f', u). absurd cc)))
  Runs-IsCounted (first_succeeds e f) =
      (omega arith, omega arith, ((λ h. absurd (omega arith)), (λ (t, c, e', f', u). absurd cc)))
  Runs-IsCounted (first_fails e f n) = (
    omega arith,
    omega arith,
    ((λ h. absurd (omega arith)), (λ (t, c, e', f', u). absurd (n cc))),
  )
  Runs-IsCounted (reauth_fails {t} {cause} e f u r) =
      (omega arith, omega arith, ((λ h. (t, cause, e, f, u)), (λ h. refl)))
  Runs-IsCounted (retried {t} {fresh} {cause} e f u r) =
      (omega arith, omega arith, ((λ h. (t, cause, e, f, u)), (λ h. refl)))

  -- Every run asks for a token once and is one of five: no token, a first fetch that succeeds, one that
  -- fails otherwise than with status 401, and behind a 401 a new authentication with the token that was
  -- refused, which fails or is followed by one more fetch with the token that it gives. It authenticates
  -- again at most once, exactly if the first fetch met a response with status 401, and fetches at most
  -- once more than it authenticates again.
  pub fetch_with_reauth-Runs :
      Runs (fetch_with_reauth token fetch_once reauth)
      × IsCounted (fetch_with_reauth token fetch_once reauth).1
  unfolding fetch_with_reauth
  fetch_with_reauth-Runs = (with_token-Runs token refl, Runs-IsCounted (with_token-Runs token refl))
