-- ===== src/Backends/Fmc/Filter/Laws.antt =====
-- src/backends/fmc/filter.ts: the clauses of a filter can be told apart.
use Prim.Native.Char.{Char, code}
use Prim.Native.String
use Prim.Native.String.append
use text.Mathlib.TextLemmas.{append-nil}
use ftd_metrics_exporter.Prelude.{
  ℕ, ◌≡◌, refl, sym, ap, ◌∙◌, String, Bool, true, false, not, ◌&&◌, List, [], ◌∷◌, none, some, ◌==◌,
  if◌then◌else◌, arith,
}
use ftd_metrics_exporter.Prelude.Text.{concat, onto_first, split_on}
use ftd_metrics_exporter.Backends.Fmc.Map.{FmcMetricFamily, family_label}
use ftd_metrics_exporter.Backends.Fmc.Filter.{fits_hex, is_uuid, filter_text, build_fmc_filter}

-- The text does not hold the character.
abbrev pub lacks : ℕ → String → Bool
lacks separator String.[] = true
lacks separator (String.◌∷◌ c s) = not (code c == separator) && lacks separator s

split_on-prefix :
    (separator : ℕ) (s t p : String) (ps : List String)
    → lacks separator s ≡ true
    → split_on separator t ≡ p ∷ ps
    → split_on separator (String.◌++◌ s t) ≡ String.◌++◌ s p ∷ ps
unfolding split_on
split_on-prefix separator String.[] t p ps h e =
    ap (split_on separator) (append.nil t) ∙ e ∙ ap (λ q. q ∷ ps) (sym (append.nil p))
split_on-prefix separator (String.◌∷◌ c s) t p ps h e =
    ap (split_on separator) (append.cons c s t)
    ∙ skips c (String.◌++◌ s t) (String.◌++◌ s p) (ground arith)
        (split_on-prefix separator s t p ps (ground arith) e)
    ∙ ap (λ q. q ∷ ps)
        (append.cons c String.[] (String.◌++◌ s p)
          ∙ ap (String.◌∷◌ c) (append.nil (String.◌++◌ s p))
          ∙ sym (append.cons c s p))
  where
    skips :
        (c : Char) (u q : String)
        → (code c == separator) ≡ false
        → split_on separator u ≡ q ∷ ps
        → (if code c == separator
            then "" ∷ split_on separator u
            else onto_first (String.◌∷◌ c String.[]) (split_on separator u))
          ≡ String.◌++◌ (String.◌∷◌ c String.[]) q ∷ ps
    skips c u q n e =
        ap
          (λ b.
            if b
            then "" ∷ split_on separator u
            else onto_first (String.◌∷◌ c String.[]) (split_on separator u))
          n
        ∙ ap (onto_first (String.◌∷◌ c String.[])) e

split_on-semicolon : (t : String) → split_on b';' (String.◌++◌ ";" t) ≡ "" ∷ split_on b';' t
unfolding split_on
split_on-semicolon t =
    ap (split_on b';') (append.cons ";" String.[] t) ∙ ap (λ u. "" ∷ split_on b';' u) (append.nil t)

split_on-last : (s : String) → lacks b';' s ≡ true → split_on b';' s ≡ s ∷ []
unfolding split_on
split_on-last s h =
    ap (split_on b';') (sym (append-nil s))
    ∙ split_on-prefix b';' s String.[] String.[] [] h refl
    ∙ ap (λ q. q ∷ []) (append-nil s)

fits_hex-lacks :
    (pattern s : String)
    → lacks b';' pattern ≡ true
    → fits_hex pattern s ≡ true
    → lacks b';' s ≡ true
unfolding fits_hex
fits_hex-lacks String.[] String.[] hp h = refl
fits_hex-lacks String.[] (String.◌∷◌ c s) hp h = ground arith
fits_hex-lacks (String.◌∷◌ p ps) String.[] hp h = ground arith
fits_hex-lacks (String.◌∷◌ p ps) (String.◌∷◌ c s) hp h = ground (arith, fits_hex-lacks ps s)

family_label-lacks : (family : FmcMetricFamily) → lacks b';' (family_label family) ≡ true
family_label-lacks FmcMetricFamily.cpu = refl
family_label-lacks FmcMetricFamily.mem = refl
family_label-lacks FmcMetricFamily.interface = refl
family_label-lacks FmcMetricFamily.disk_stats = refl
family_label-lacks FmcMetricFamily.chassis_stats = refl

-- A clause between semicolons is one part.
clause-split :
    (a b : String) (rest : String)
    → lacks b';' a ≡ true
    → lacks b';' b ≡ true
    → split_on b';' (String.◌++◌ a (String.◌++◌ b (String.◌++◌ ";" rest)))
      ≡ String.◌++◌ a b ∷ split_on b';' rest
clause-split a b rest ha hb = split_on-prefix b';' a _ b (split_on b';' rest) ha (
    split_on-prefix b';' b _ "" (split_on b';' rest) hb (split_on-semicolon rest)
    ∙ ap (λ q. q ∷ split_on b';' rest) (append-nil b))

last_clause :
    (s : String)
    → lacks b';' s ≡ true
    → split_on b';' (String.◌++◌ "timeRange:" (String.◌++◌ s "")) ≡ String.◌++◌ "timeRange:" s ∷ []
last_clause s h =
    split_on-prefix b';' "timeRange:" _ s [] refl
      (ap (split_on b';') (append-nil s) ∙ split_on-last s h)

is_uuid-lacks : (s : String) → is_uuid s ≡ true → lacks b';' s ≡ true
unfolding is_uuid
is_uuid-lacks s h = fits_hex-lacks "hhhhhhhh-hhhh-hhhh-hhhh-hhhhhhhhhhhh" s refl h

filter_text-split :
    (device_uuid : String) (family : FmcMetricFamily) (time_range : String)
    → is_uuid device_uuid ≡ true
    → lacks b';' time_range ≡ true
    → split_on b';' (filter_text device_uuid (family_label family) time_range)
      ≡ String.◌++◌ "device_uuid:" device_uuid
        ∷ String.◌++◌ "metric:" (family_label family)
        ∷ String.◌++◌ "timeRange:" time_range
        ∷ []
unfolding filter_text concat
filter_text-split device_uuid family time_range u h =
    clause-split "device_uuid:" device_uuid _ refl (is_uuid-lacks device_uuid u)
    ∙ ap (λ ps. String.◌++◌ "device_uuid:" device_uuid ∷ ps)
        (clause-split "metric:" (family_label family) _ refl (family_label-lacks family)
          ∙ ap (λ ps. String.◌++◌ "metric:" (family_label family) ∷ ps) (last_clause time_range h))

-- The filter that is built for a device, a family and a time range without a semicolon splits at its semicolons into exactly the three clauses.
pub build_fmc_filter-split :
    (device_uuid : String) (family : FmcMetricFamily) (time_range filter : String)
    → lacks b';' time_range ≡ true
    → build_fmc_filter device_uuid family time_range ≡ some filter
    → split_on b';' filter
      ≡ String.◌++◌ "device_uuid:" device_uuid
        ∷ String.◌++◌ "metric:" (family_label family)
        ∷ String.◌++◌ "timeRange:" time_range
        ∷ []
unfolding build_fmc_filter
build_fmc_filter-split device_uuid family time_range filter ht h = go (is_uuid device_uuid) refl h
  where
    go :
        (b : Bool)
        → is_uuid device_uuid ≡ b
        → (if b then some (filter_text device_uuid (family_label family) time_range) else none)
          ≡ some filter
        → split_on b';' filter
          ≡ String.◌++◌ "device_uuid:" device_uuid
            ∷ String.◌++◌ "metric:" (family_label family)
            ∷ String.◌++◌ "timeRange:" time_range
            ∷ []
    go false u h = ground arith
    go true u h =
        ap (split_on b';') (sym (ground arith))
        ∙ filter_text-split device_uuid family time_range u ht
