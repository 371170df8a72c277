-- ===== src/Backends/Fmc/Adapter/Closing.antt =====
-- src/backends/fmc/adapter.ts: an adapter is used between a successful `init` and `close`, and is closed once.
use ftd_metrics_exporter.Prelude.{
  ◌≡◌, refl, ap, ◌∙◌, String, true, false, not, ◌&&◌, List, [], ◌∷◌, ◌++◌, Option, none, some,
  arith, ◌⊎◌, inl, inr, Bool-cases, if_cases,
}
use mathlib.Core.List.{append-nil}
use ftd_metrics_exporter.Backends.Fmc.Domain.{resolve_domain_uuid}
use ftd_metrics_exporter.Backends.Fmc.Adapter.Lifetime.{
  Adapter, Surroundings, InitResult, ready, with_clients, init_discovery, init, require_initialized,
  close, Step, init_call, close_call, run, is_nil,
}

-- A run of `init` that succeeds leaves an adapter that can be used.
abbrev IsUsable : Adapter × InitResult → Type 0
IsUsable r = r.1 ≡ ready → require_initialized r.0 ≡ true

init_discovery-IsUsable :
    (s : Surroundings) (a : Adapter) (domain : Option String)
    → IsUsable (init_discovery s (with_clients s.given_dispatcher a) domain)
unfolding init_discovery require_initialized
init_discovery-IsUsable s a none = λ h. ground arith
init_discovery-IsUsable s a (some domain) =
    if_cases IsUsable (is_nil s.devices && s.first_discovery_failed) _ _ (λ b h. ground arith)
      (λ b h. refl)

-- After an `init` that succeeds, the guard at the head of `fetchSnapshot` passes.
pub init-ready :
    (s : Surroundings) (a : Adapter)
    → (init s a).1 ≡ ready
    → require_initialized (init s a).0 ≡ true
unfolding init
init-ready s a =
    if_cases IsUsable a.initialized _ _ (λ b h. ground arith)
      (λ b.
        if_cases IsUsable (not s.given_dispatcher && not s.ca_readable) _ _ (λ b h. ground arith)
          (λ b.
            if_cases IsUsable (not s.token_given) _ _ (λ b h. ground arith)
              (λ b.
                init_discovery-IsUsable s (record a { initialized = true })
                  (resolve_domain_uuid s.configured_domain s.header_domain s.info_reply))))

-- The first `close` leaves an adapter that is closed and refuses to be used, and a second one closes nothing.
pub close-twice :
    (a : Adapter)
    → a.closed ≡ false
    → (require_initialized (close a).0 ≡ false)
      × ((close a).0.closed ≡ true)
      × ((close (close a).0).1 ≡ [])
unfolding close require_initialized
close-twice a h = ground arith

init-keeps_closed : (s : Surroundings) (a : Adapter) → (init s a).0.closed ≡ a.closed
unfolding init init_discovery
init-keeps_closed s a = ground arith

run_closed : (a : Adapter) (steps : List Step) → a.closed ≡ true → (run a steps).1 ≡ []
unfolding run close
run_closed a [] h = refl
run_closed a (init_call s ∷ steps) h = run_closed (init s a).0 steps (init-keeps_closed s a ∙ h)
run_closed a (close_call ∷ steps) h = ground (arith, run_closed a steps)

close-closed : (a : Adapter) → (close a).0.closed ≡ true
unfolding close
close-closed a = ground (arith, Bool-cases a.closed)

-- Whatever calls of `init` and `close` are made one after the other, all that is closed is closed by one call of `close`.
pub run-closings :
    (a : Adapter) (steps : List Step)
    → ((run a steps).1 ≡ []) ⊎ ((b : Adapter) × ((run a steps).1 ≡ (close b).1))
unfolding run
run-closings a [] = inl refl
run-closings a (init_call s ∷ steps) = run-closings (init s a).0 steps
run-closings a (close_call ∷ steps) = inr (
  a,
  ap (λ cs. (close a).1 ++ cs) (run_closed (close a).0 steps (close-closed a))
      ∙ append-nil (close a).1,
)
