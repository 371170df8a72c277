-- ===== src/Backends/Fmc/Domain/Laws.antt =====
-- src/backends/fmc/domain.ts: where the domain comes from.
use ftd_metrics_exporter.Prelude.{
  ◌≡◌, refl, String, Bool, true, false, List, [], ◌∷◌, Option, none, some, Any, ◌⊎◌, inl, inr,
  if◌then◌else◌, arith,
}
use ftd_metrics_exporter.Prelude.Json.{Json}
use ftd_metrics_exporter.Backends.Fmc.Domain.{
  FmcDomainInfoItem, parse_domain_info_items, is_global, global_uuid, first_uuid, or_else, body,
  fetch_domain_via_info_endpoint, resolve_domain_uuid,
}

-- The domain is that of an item of the list.
abbrev pub IsListed : String → List FmcDomainInfoItem → Type 0
IsListed uuid found = Any (λ item. item.uuid ≡ some uuid) found

global_uuid-IsListed :
    (uuid : String) (found : List FmcDomainInfoItem)
    → global_uuid found ≡ some uuid
    → IsListed uuid found
unfolding global_uuid
global_uuid-IsListed uuid [] h = ground arith
global_uuid-IsListed uuid (item ∷ rest) h =
    go (is_global item.name) (global_uuid-IsListed uuid rest) h
  where
    go :
        (b : Bool)
        → (global_uuid rest ≡ some uuid → IsListed uuid rest)
        → (if b then item.uuid else global_uuid rest) ≡ some uuid
        → IsListed uuid (item ∷ rest)
    go true later h = inl h
    go false later h = inr (later h)

first_uuid-IsListed :
    (uuid : String) (found : List FmcDomainInfoItem)
    → first_uuid found ≡ some uuid
    → IsListed uuid found
first_uuid-IsListed uuid [] h = ground arith
first_uuid-IsListed uuid (item ∷ rest) h = inl h

or_else-IsListed :
    (uuid : String) (found : List FmcDomainInfoItem) (a : Option String)
    → global_uuid found ≡ a
    → or_else a (first_uuid found) ≡ some uuid
    → IsListed uuid found
or_else-IsListed uuid found none e h = first_uuid-IsListed uuid found h
or_else-IsListed uuid found (some a) e h = global_uuid-IsListed uuid found (ground arith)

-- A domain that is resolved is the configured one, else that of the header, else that of an item of the endpoint's reply.
pub resolve_domain_uuid-source :
    (configured header : Option String) (reply : Option Json) (uuid : String)
    → resolve_domain_uuid configured header (body reply) ≡ some uuid
    → (configured ≡ some uuid)
      ⊎ ((configured ≡ none) × (header ≡ some uuid))
      ⊎ ((configured ≡ none) × (header ≡ none) × IsListed uuid (parse_domain_info_items reply))
unfolding resolve_domain_uuid fetch_domain_via_info_endpoint
resolve_domain_uuid-source (some c) header reply uuid h = inl h
resolve_domain_uuid-source none (some d) reply uuid h = inr (inl (refl, h))
resolve_domain_uuid-source none none reply uuid h =
    inr (inr (refl, refl, or_else-IsListed uuid (parse_domain_info_items reply) _ refl h))
