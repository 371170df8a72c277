-- ===== src/Config/Families/Laws.antt =====
-- src/config/validate.ts, `validateMetricFamilies`: what it keeps.
use ftd_metrics_exporter.Prelude.{
  ◌≡◌, refl, String, Bool, true, false, ◌&&◌, List, [], ◌∷◌, map, All, includes, if◌then◌else◌,
  if_both, arith,
}
use ftd_metrics_exporter.Config.{Env, Checked, metric_family_values, invalid_family}
use ftd_metrics_exporter.Config.Values.{non_empty, fine}
use ftd_metrics_exporter.Config.Values.Laws.{IsMember, maybe-satisfies}
use ftd_metrics_exporter.Config.Families.{
  to_upper, family_tokens, families_of, is_nil, check_tokens, check_families,
  validate_metric_families,
}

abbrev pub AreFamilies : List String → Type 0
AreFamilies families = All (IsMember metric_family_values) families

families_of-AreFamilies : (tokens : List String) → AreFamilies (families_of tokens).value
unfolding families_of
families_of-AreFamilies [] = tt
families_of-AreFamilies (token ∷ tokens) =
    keeps token _ (families_of tokens) refl (families_of-AreFamilies tokens)
  where
    keeps :
        (token : String) (b : Bool) (rest : Checked (List String))
        → includes metric_family_values (to_upper token) ≡ b
        → AreFamilies rest.value
        → AreFamilies
            (if b
              then record rest { value = to_upper token ∷ rest.value }
              else record rest { errors = invalid_family token ∷ rest.errors }).value
    keeps token true rest e h = (e, h)
    keeps token false rest e h = h

-- Without an error every token is kept, in upper case and in the order of the tokens.
families_of-accepted :
    (tokens : List String)
    → (families_of tokens).errors ≡ []
    → (families_of tokens).value ≡ map to_upper tokens
unfolding families_of
families_of-accepted [] h = refl
families_of-accepted (token ∷ tokens) h = ground (arith, families_of-accepted tokens)

-- What `validateMetricFamilies` makes of a set value or of none, once no error is pushed.
abbrev pub IsPolled : Checked (List String) → Type 0
IsPolled families =
    AreFamilies families.value × (families.errors ≡ [] → is_nil families.value ≡ false)

check_no_token-IsPolled : (raw : String) → IsPolled (check_tokens raw [])
unfolding check_tokens families_of
check_no_token-IsPolled raw = (tt, λ h. ground arith)

check_tokens-IsPolled : (raw : String) (tokens : List String) → IsPolled (check_tokens raw tokens)
unfolding check_tokens
check_tokens-IsPolled raw [] = check_no_token-IsPolled raw
check_tokens-IsPolled raw (token ∷ tokens) = (
  if_both (λ (c : Checked (List String)). AreFamilies c.value)
      (is_nil (families_of (token ∷ tokens)).value && false) _ (families_of (token ∷ tokens))
      (families_of-AreFamilies (token ∷ tokens)) (families_of-AreFamilies (token ∷ tokens)),
  λ h. ground (arith, families_of-accepted (token ∷ tokens)),
)

pub validate_metric_families-IsPolled : (env : Env) → IsPolled (validate_metric_families env)
unfolding validate_metric_families check_families
validate_metric_families-IsPolled env =
    maybe-satisfies IsPolled (fine metric_family_values) check_families
      (non_empty (env "FMC_METRIC_FAMILIES"))
      ((refl, (refl, (refl, (refl, (refl, tt))))), λ h. refl)
      (λ raw. check_tokens-IsPolled raw (family_tokens raw))
