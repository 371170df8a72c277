-- ===== src/Metrics/States.antt =====
-- What every upstream value, also one never seen before, becomes in a metric.
use mathlib.Core.Path.{subst}
use ftd_metrics_exporter.Prelude.{
  ℕ, ◌+◌, if◌then◌else◌, ◌≡◌, refl, ◌⊎◌, inl, inr, String, true, false, List, [], ◌∷◌, none, some,
  map, includes, str_eq, eq_iff, Bool-cases, All, arith,
}
use ftd_metrics_exporter.Metrics.Enums.{
  lowercase_enum_label, tunnel_state_label, replaced, redundancy_mode_values, config_state_values,
  conflict_detection_state_values, device_license_status_values, device_compliance_status_values,
  ha_role_values, ha_node_status_values, ha_node_type_values, tunnel_state_values,
  license_reg_status_values, license_auth_status_values, certificate_status_values,
}
use ftd_metrics_exporter.Metrics.EnumRender.{
  classify_ha_node_status, classify_tunnel_state, classify_info, EnumResult, classify_ha_node_type,
  classify_redundancy_mode, classify_license_reg_status, classify_license_auth_status,
  classify_certificate_status, classify_config_state, classify_conflict_detection_state,
  classify_device_license_status, classify_device_compliance_status, classify_ha_role,
  ha_node_status_series, s2s_tunnel_state_series,
}

-- What holds of every value of a vocabulary holds of a text that it includes.
pub includes-All :
    (P : String → Type 0) (xs : List String) (s : String) → All P xs → includes xs s ≡ true → P s
includes-All P [] s h e = ground arith
includes-All P (x ∷ xs) s h e = elim (Bool-cases (str_eq x s)) [
  | inl t ↦ subst P ((eq_iff x s).0 t) h.0
  | inr f ↦ includes-All P xs s h.1 (ground arith)
]

pub includes-map :
    (f : String → String) (xs : List String) (s : String)
    → includes xs s ≡ true
    → includes (map f xs) (f s) ≡ true
includes-map f [] s e = ground arith
includes-map f (x ∷ xs) s e = elim (Bool-cases (str_eq x s)) [
  | inl t ↦
      subst (λ y. includes (map f (x ∷ xs)) (f y) ≡ true) ((eq_iff x s).0 t)
        (ground (arith, eq_iff (f x) (f x)))
  | inr n ↦ ground (arith, includes-map f xs s)
]

-- A value of the vocabulary is labelled by its own label and not flagged; any other is labelled
-- "unknown", and flagged with its raw text.
abbrev pub IsBounded : List String → String → EnumResult → Type 0
IsBounded values raw r =
    ((includes values raw ≡ true)
      × (r.unrecognized_raw_value ≡ none)
      × (includes (map lowercase_enum_label values) r.label ≡ true))
    ⊎ ((includes values raw ≡ false)
        × (r.unrecognized_raw_value ≡ some raw)
        × (r.label ≡ "unknown"))

classify_info-IsBounded :
    (values : List String) (raw : String) → IsBounded values raw (classify_info values raw)
unfolding classify_info
classify_info-IsBounded values raw = elim (Bool-cases (includes values raw)) [
  | inl t ↦ inl (t, rw t refl, rw t (includes-map lowercase_enum_label values raw t))
  | inr f ↦ inr (f, rw f refl, rw f refl)
]

-- Whatever text the upstream sends, each of the ten classifiers of informational labels gives a
-- label of its vocabulary, in lower case, without a flag, if the text is in the vocabulary, and
-- otherwise the label "unknown", flagged with the text: the labels are bounded.
pub classify-IsBounded :
    (raw : String)
    → IsBounded ha_node_type_values raw (classify_ha_node_type raw)
      × IsBounded redundancy_mode_values raw (classify_redundancy_mode raw)
      × IsBounded license_reg_status_values raw (classify_license_reg_status raw)
      × IsBounded license_auth_status_values raw (classify_license_auth_status raw)
      × IsBounded certificate_status_values raw (classify_certificate_status raw)
      × IsBounded config_state_values raw (classify_config_state raw)
      × IsBounded conflict_detection_state_values raw (classify_conflict_detection_state raw)
      × IsBounded device_license_status_values raw (classify_device_license_status raw)
      × IsBounded device_compliance_status_values raw (classify_device_compliance_status raw)
      × IsBounded ha_role_values raw (classify_ha_role raw)
unfolding classify_ha_node_type classify_redundancy_mode classify_license_reg_status
    classify_license_auth_status classify_certificate_status classify_config_state
    classify_conflict_detection_state classify_device_license_status
    classify_device_compliance_status classify_ha_role
classify-IsBounded raw = (
  classify_info-IsBounded ha_node_type_values raw,
  classify_info-IsBounded redundancy_mode_values raw,
  classify_info-IsBounded license_reg_status_values raw,
  classify_info-IsBounded license_auth_status_values raw,
  classify_info-IsBounded certificate_status_values raw,
  classify_info-IsBounded config_state_values raw,
  classify_info-IsBounded conflict_detection_state_values raw,
  classify_info-IsBounded device_license_status_values raw,
  classify_info-IsBounded device_compliance_status_values raw,
  classify_info-IsBounded ha_role_values raw,
)

abbrev pub total : List (String × ℕ) → ℕ
total [] = 0
total ((label, value) ∷ rest) = value + total rest

-- The series have these labels, and exactly one of the states is 1, the others 0.
abbrev pub IsStateSet : List String → List (String × ℕ) → Type 0
IsStateSet labels series = (map (λ s. s.0) series ≡ labels) × (total series ≡ 1)

-- The value of the series with a label.
abbrev pub value_of : String → List (String × ℕ) → ℕ
value_of label [] = 0
value_of label ((l, value) ∷ rest) = if str_eq l label then value else value_of label rest

-- Whatever text the upstream sends for the status of an HA node, its state set has the same five
-- series, of which exactly one is 1: an unrecognised status is the state "unknown".
pub ha_node_status_series-IsStateSet :
    (raw : String)
    → IsStateSet
        ("normal" ∷ "error" ∷ "warning" ∷ "disabled" ∷ "unknown" ∷ [])
        (ha_node_status_series raw)
      × ((includes ha_node_status_values raw ≡ true)
          ⊎ (value_of "unknown" (ha_node_status_series raw) ≡ 1))
unfolding ha_node_status_series classify_ha_node_status lowercase_enum_label replaced
ha_node_status_series-IsStateSet raw = elim (Bool-cases (includes ha_node_status_values raw)) [
  | inl t ↦ (
    includes-All
        (λ r.
          IsStateSet ("normal" ∷ "error" ∷ "warning" ∷ "disabled" ∷ "unknown" ∷ [])
            (ha_node_status_series r))
        ha_node_status_values raw
        ((refl, refl), ((refl, refl), ((refl, refl), ((refl, refl), ((refl, refl), tt))))) t,
    inl t,
  )
  | inr f ↦ rw f ((refl, refl), inr refl)
]

-- Whatever text the upstream sends for the state of a tunnel, its state set has the same three series,
-- of which exactly one is 1.
pub s2s_tunnel_state_series-IsStateSet :
    (raw : String) → IsStateSet ("up" ∷ "down" ∷ "unknown" ∷ []) (s2s_tunnel_state_series raw)
unfolding s2s_tunnel_state_series classify_tunnel_state tunnel_state_label
s2s_tunnel_state_series-IsStateSet raw = elim (Bool-cases (includes tunnel_state_values raw)) [
  | inl t ↦
      includes-All (λ r. IsStateSet ("up" ∷ "down" ∷ "unknown" ∷ []) (s2s_tunnel_state_series r))
        tunnel_state_values raw ((refl, refl), ((refl, refl), ((refl, refl), tt))) t
  | inr f ↦ rw f (refl, refl)
]
