-- ===== src/Backends/Fmc/Merge/Gathering.antt =====
-- src/backends/fmc/map.ts, `mergeFmcFamilies`: where the groups of a snapshot come from.
use ftd_metrics_exporter.Prelude.{
  ◌≡◌, ◌≢◌, refl, ap, ◌∙◌, subst, true, false, List, [], ◌∷◌, Option, none, some, ◌⊎◌, inl, inr,
  All, Any, arith, Bool-cases,
}
use ftd_metrics_exporter.Backends.Fmc.Map.{Groups, no_groups, FmcFamilyMapResult}
use ftd_metrics_exporter.Backends.Fmc.Merge.{
  Merging, replaced_by, merge_groups, contributes, merge_step, merge_loop,
}

no_groups-contributes : (g : Groups) → contributes g ≡ true → g ≢ no_groups
unfolding contributes
no_groups-contributes g h e = cc (ap contributes e)

pub contributes-no_groups : (g : Groups) → contributes g ≡ false → g ≡ no_groups
unfolding contributes
contributes-no_groups g h = ground arith

-- What a merge makes of one group: nothing if no result and no earlier merge has it, or else what one of them has.
abbrev pub IsMerged :
    {A : Type 0} → (Groups → Option A) → Option A → List FmcFamilyMapResult → Option A → Type 0
IsMerged f old results none = (old ≡ none) × All (λ r. f r.partial ≡ none) results
IsMerged f old results (some a) = (old ≡ some a) ⊎ Any (λ r. f r.partial ≡ some a) results

module _ {A : Type 0} (f : Groups → Option A)
    (h : (new old : Groups) → f (merge_groups new old) ≡ replaced_by (f new) (f old)) where
  IsMerged-nil : (o : Option A) → IsMerged f o [] o
  IsMerged-nil none = (refl, tt)
  IsMerged-nil (some a) = inl refl

  IsMerged-cons :
      (r : FmcFamilyMapResult) (rs : List FmcFamilyMapResult) (x old o : Option A)
      → f r.partial ≡ x
      → IsMerged f (replaced_by x old) rs o
      → IsMerged f old (r ∷ rs) o
  IsMerged-cons r rs none old none e (e', all) = (e', (e, all))
  IsMerged-cons r rs (some b) old none e (e', all) = absurd cc
  IsMerged-cons r rs none old (some a) e (inl e') = inl e'
  IsMerged-cons r rs (some b) old (some a) e (inl e') = inr (inl (e ∙ e'))
  IsMerged-cons r rs none old (some a) e (inr any) = inr (inr any)
  IsMerged-cons r rs (some b) old (some a) e (inr any) = inr (inr any)

  pub merge_loop-IsMerged :
      (results : List FmcFamilyMapResult) (m : Merging)
      → IsMerged f (f m.groups) results (f (merge_loop results m).groups)
  unfolding merge_loop merge_step
  merge_loop-IsMerged [] m = IsMerged-nil (f m.groups)
  merge_loop-IsMerged (r ∷ rs) m =
      IsMerged-cons r rs (f r.partial) (f m.groups) (f (merge_loop rs (merge_step r m)).groups) refl
        (subst (λ o. IsMerged f o rs (f (merge_loop rs (merge_step r m)).groups))
          (h r.partial m.groups) (merge_loop-IsMerged rs (merge_step r m)))

pub merge_loop-contributed :
    (results : List FmcFamilyMapResult) (m : Merging)
    → (merge_loop results m).contributed ≡ true
    → (m.contributed ≡ true) ⊎ Any (λ r. r.partial ≢ no_groups) results
unfolding merge_loop merge_step
merge_loop-contributed [] m e = inl e
merge_loop-contributed (r ∷ rs) m e = elim (merge_loop-contributed rs (merge_step r m) e) [
  | inl c ↦ elim (Bool-cases m.contributed) [
    | inl t ↦ inl t
    | inr f ↦ inr (inl (no_groups-contributes r.partial (ground (arith, c, f))))
  ]
  | inr any ↦ inr (inr any)
]
