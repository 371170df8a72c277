-- ===== src/Backends/Scc/Lifetime/Laws.antt =====
-- src/backends/scc/adapter.ts: the variables of an adapter in every state that calls lead to.
use ftd_metrics_exporter.Prelude.{
  ◌≡◌, refl, String, true, false, ◌&&◌, List, [], ◌∷◌, ◌++◌, Option, none, some, arith, ◌⊎◌, inl,
  inr, Bool-cases, if_cases, sym, subst,
}
use mathlib.Core.List.{append-nil}
use ftd_metrics_exporter.Backends.Scc.Adapter.{init_token}
use ftd_metrics_exporter.Backends.Scc.Lifetime.{
  Adapter, Options, InitResult, ready, range_error, create_scc_adapter, is_some, init, init_with,
  with_clients, with_dispatcher, domain_of, Closing, client, raw_dispatcher, close, cleared,
  closing_of, Reach, created, inits, closes,
}

-- The token and the dispatcher are set together, not before `init`; the client and the spacing guard are set together, and
-- only with a token; certificates have a cache exactly if there is a domain.
abbrev pub IsCoherent : Adapter → Type 0
IsCoherent a =
    (is_some a.token ≡ a.dispatcher)
    × (a.spacing_guard ≡ a.http_client)
    × ((a.http_client ≡ false) ⊎ (is_some a.token ≡ true))
    × (a.certificates_cache ≡ is_some a.certificates_domain_uuid)
    × ((a.initialized ≡ true) ⊎ (a.dispatcher ≡ false))

-- Nothing, or one thing once.
abbrev pub IsOnce : List Closing → Type 0
IsOnce cs = (cs ≡ []) ⊎ (cs ≡ client ∷ []) ⊎ (cs ≡ raw_dispatcher ∷ [])

-- What is closed: nothing before `close`, and afterwards at most one thing.
abbrev pub IsClosedOnce : Adapter → List Closing → Type 0
IsClosedOnce a cs = ((a.closed ≡ true) ⊎ (cs ≡ [])) × IsOnce cs

domain_of-interval :
    (o : Options) (resolved : Option String)
    → (is_some (domain_of o resolved) && o.certificate_interval) ≡ is_some (domain_of o resolved)
domain_of-interval o resolved = ground (arith, Bool-cases o.certificate_interval)

-- While the dispatcher is not set, neither is the client.
client_needs_dispatcher :
    (a : Adapter) → IsCoherent a → a.dispatcher ≡ false → a.http_client ≡ false
client_needs_dispatcher a h d = ground (arith, h, d)

init_with-IsCoherent :
    (o : Options) (resolved : Option String) (a : Adapter) (token : Option String)
    → IsCoherent a
    → a.http_client ≡ false
    → a.initialized ≡ true
    → IsCoherent (init_with o resolved a token).0
unfolding init_with with_clients
init_with-IsCoherent o resolved a none h c i = h
init_with-IsCoherent o resolved a (some t) (d, g, n, m, e) c i =
    if_cases (λ (r : Adapter × InitResult). IsCoherent r.0) o.spacing_valid
      (with_clients o resolved (with_dispatcher o t a), ready) (with_dispatcher o t a, range_error)
      (λ v. (refl, refl, inr refl, domain_of-interval o resolved, inl i))
      (λ v. (refl, g, inl c, m, inl i))

init-IsCoherent :
    (o : Options) (resolved : Option String) (a : Adapter)
    → IsCoherent a
    → IsCoherent (init o resolved a).0
unfolding init
init-IsCoherent o resolved a h =
    if_cases (λ (r : Adapter × InitResult). IsCoherent r.0) a.initialized _ _ (λ b. h)
      (λ b.
        let d : a.dispatcher ≡ false = ground (arith, h, b) in
        init_with-IsCoherent o resolved (record a { initialized = true }) (init_token o.api_token)
          (h.0, h.1, h.2, h.3, inl refl) (client_needs_dispatcher a h d) refl)

close-IsCoherent : (a : Adapter) → IsCoherent a → IsCoherent (close a).0
unfolding close
close-IsCoherent a h =
    if_cases (λ (r : Adapter × List Closing). IsCoherent r.0) a.closed (a, [])
      (cleared a, closing_of a) (λ b. h) (λ b. (refl, refl, inl refl, refl, inr refl))

init-keeps_closed :
    (o : Options) (resolved : Option String) (a : Adapter) → (init o resolved a).0.closed ≡ a.closed
unfolding init init_with with_clients
init-keeps_closed o resolved a = ground (arith, Bool-cases a.initialized)

closing_of-IsOnce : (a : Adapter) → IsOnce (closing_of a)
closing_of-IsOnce a =
    if_cases IsOnce a.http_client _ _ (λ b. inr (inl refl))
      (λ b.
        if_cases IsOnce (a.owns_dispatcher && a.dispatcher) _ _ (λ c. inr (inr refl))
          (λ c. inl refl))

close-IsClosedOnce :
    (a : Adapter) (cs : List Closing)
    → IsClosedOnce a cs
    → IsClosedOnce (close a).0 (cs ++ (close a).1)
unfolding close
close-IsClosedOnce a cs (before, once) =
    if_cases (λ (r : Adapter × List Closing). IsClosedOnce r.0 (cs ++ r.1)) a.closed _ _
      (λ b. subst (IsClosedOnce a) (sym (append-nil cs)) (before, once))
      (λ b.
        let none_before : cs ≡ [] = ground (arith, before, b) in
        (inl refl, subst (λ l. IsOnce (l ++ closing_of a)) (sym none_before) (closing_of-IsOnce a)))

-- In every state that calls of `init` and `close` lead to: the token and the dispatcher are set together and not before
-- `init`, the client and the spacing guard are set together and only with a token, certificates have a cache exactly if
-- there is a domain, and what was closed so far is nothing before the first `close` and at most one thing, once, after it.
pub Reach-IsCoherent :
    {a : Adapter} {cs : List Closing} → Reach a cs → IsCoherent a × IsClosedOnce a cs
unfolding create_scc_adapter
Reach-IsCoherent created = ((refl, refl, inl refl, refl, inr refl), (inr refl, inl refl))
Reach-IsCoherent (inits {a} {cs} o resolved r) =
    let (h, (before, once)) = Reach-IsCoherent r in
    (init-IsCoherent o resolved a h, (ground (arith, before, init-keeps_closed o resolved a), once))
Reach-IsCoherent (closes {a} {cs} r) =
    let (h, c) = Reach-IsCoherent r in (close-IsCoherent a h, close-IsClosedOnce a cs c)
