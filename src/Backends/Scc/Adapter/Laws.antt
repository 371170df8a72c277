-- ===== src/Backends/Scc/Adapter/Laws.antt =====
-- src/backends/scc/adapter.ts: the addresses of requests, and when an inventory is empty.
use Prim.Native.Char.{code}
use Prim.Native.String
use Prim.Native.String.append
use ftd_metrics_exporter.Prelude.{
  ◌≡◌, refl, sym, ap, ◌∙◌, String, Bool, true, false, [], ◌∷◌, ◌==◌, if◌then◌else◌, arith,
}
use ftd_metrics_exporter.Prelude.Text.{is_empty, concat}
use ftd_metrics_exporter.Backends.Scc.Adapter.{trim_trailing_slash, build_url}

is_empty-slash : (s : String) → is_empty (String.◌++◌ s "/") ≡ false
is_empty-slash String.[] = ap is_empty (append.nil "/")
is_empty-slash (String.◌∷◌ c s) = ap is_empty (append.cons c s "/")

-- One slash at the end is taken away.
trim_trailing_slash-slash : (s : String) → trim_trailing_slash (String.◌++◌ s "/") ≡ s
unfolding trim_trailing_slash
trim_trailing_slash-slash String.[] = ap trim_trailing_slash (append.nil "/")
trim_trailing_slash-slash (String.◌∷◌ c s) =
    ap trim_trailing_slash (append.cons c s "/")
    ∙ ap
        (λ b.
          if b
          then (if code c == b'/' then String.[] else String.◌∷◌ c String.[])
          else String.◌∷◌ c (trim_trailing_slash (String.◌++◌ s "/")))
        (is_empty-slash s)
    ∙ ap (String.◌∷◌ c) (trim_trailing_slash-slash s)

-- The text does not end with a slash.
abbrev pub ends_otherwise : String → Bool
ends_otherwise String.[] = true
ends_otherwise (String.◌∷◌ c s) =
    if is_empty s then (if code c == b'/' then false else true) else ends_otherwise s

trim_trailing_slash_none : (s : String) → ends_otherwise s ≡ true → trim_trailing_slash s ≡ s
unfolding trim_trailing_slash
trim_trailing_slash_none String.[] h = refl
trim_trailing_slash_none (String.◌∷◌ c String.[]) h = ground arith
trim_trailing_slash_none (String.◌∷◌ c (String.◌∷◌ d s)) h =
    ap (String.◌∷◌ c) (trim_trailing_slash_none (String.◌∷◌ d s) h)

-- A base address that does not end with a slash gives the same address of the health metrics with a slash at its end as without.
pub build_url-slash :
    (encode_component : String → String) (base_url fmc_uid time_range : String)
    → ends_otherwise base_url ≡ true
    → build_url encode_component (String.◌++◌ base_url "/") fmc_uid time_range
      ≡ build_url encode_component base_url fmc_uid time_range
unfolding build_url
build_url-slash encode_component base_url fmc_uid time_range h =
    ap
      (λ prefix. concat (
        prefix
        ∷ "/v1/inventory/managers/"
        ∷ encode_component fmc_uid
        ∷ "/health/metrics?timeRange="
        ∷ encode_component time_range
        ∷ []))
      (trim_trailing_slash-slash base_url ∙ sym (trim_trailing_slash_none base_url h))
