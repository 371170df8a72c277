-- ===== src/Backends/Fmc/Merge/Laws.antt =====
-- src/backends/fmc/map.ts, `mergeFmcFamilies`: the window, the diagnostics and the absence of a snapshot.
use ftd_metrics_exporter.Prelude.{
  ◌≡◌, ◌↔◌, refl, sym, ◌∙◌, subst, String, Bool, true, false, not, ◌||◌, List, [], ◌∷◌, ◌++◌,
  Option, none, some, flatten, map, ◌⊎◌, inl, inr, All, All-weaken, Any, if◌then◌else◌, arith,
}
use mathlib.Core.List.{append-nil, append_assoc}
use ftd_metrics_exporter.Prelude.Int.{ℤ, pos, negsuc, gt, IsLe, gt-IsLe}
use ftd_metrics_exporter.Backends.Fmc.Map.{FmcFamilyMapResult}
use ftd_metrics_exporter.Backends.Fmc.Merge.{
  DeviceHealthSnapshot, Merging, contributes, is_later, merge_step, merge_loop, unmerged,
  merge_fmc_families,
}

-- The code's own test.
abbrev IsNotLater : (end latest : Option ℤ) → Type 0
IsNotLater end latest = is_later end latest ≡ false

gt_trans : (a b c : ℤ) → gt a b ≡ false → gt c b ≡ true → gt a c ≡ false
gt_trans (pos a) (pos b) (pos c) h k = ground arith
gt_trans (pos a) (negsuc b) c h k = ground arith
gt_trans (negsuc a) b (pos c) h k = refl
gt_trans (negsuc a) (pos b) (negsuc c) h k = ground arith
gt_trans (negsuc a) (negsuc b) (negsuc c) h k = ground arith
gt_trans (pos a) (pos b) (negsuc c) h k = ground arith

gt_self : (a : ℤ) → gt a a ≡ false
gt_self (pos a) = ground arith
gt_self (negsuc a) = ground arith

later-keeps :
    (o end latest : Option ℤ)
    → IsNotLater o latest
    → IsNotLater o (if is_later end latest then end else latest)
later-keeps none end latest h = refl
later-keeps (some a) end none h = ground arith
later-keeps (some a) none (some b) h = h
later-keeps (some a) (some c) (some b) h = ground (arith, gt_trans a b c)

later-bounds :
    (end latest : Option ℤ) → IsNotLater end (if is_later end latest then end else latest)
later-bounds none latest = refl
later-bounds (some c) none = gt_self c
later-bounds (some c) (some b) = ground (arith, gt_self c)

merge_loop-keeps :
    (results : List FmcFamilyMapResult) (m : Merging) (o : Option ℤ)
    → IsNotLater o m.latest_end
    → IsNotLater o (merge_loop results m).latest_end
unfolding merge_loop merge_step
merge_loop-keeps [] m o h = h
merge_loop-keeps (r ∷ results) m o h =
    merge_loop-keeps results (merge_step r m) o (later-keeps o r.window_end m.latest_end h)

merge_loop-bounds :
    (results : List FmcFamilyMapResult) (m : Merging)
    → All (λ r. IsNotLater r.window_end (merge_loop results m).latest_end) results
unfolding merge_loop merge_step
merge_loop-bounds [] m = tt
merge_loop-bounds (r ∷ results) m = (
  merge_loop-keeps results (merge_step r m) r.window_end (later-bounds r.window_end m.latest_end),
  merge_loop-bounds results (merge_step r m),
)

-- The times of one result.
abbrev pub IsWindowOf : (start end : Option ℤ) → FmcFamilyMapResult → Type 0
IsWindowOf start end r = (r.window_start ≡ start) × (r.window_end ≡ end)

merge_step-window :
    (r : FmcFamilyMapResult) (m : Merging)
    → IsWindowOf (merge_step r m).paired_start (merge_step r m).latest_end r
      ⊎ ((m.paired_start ≡ (merge_step r m).paired_start)
          × (m.latest_end ≡ (merge_step r m).latest_end))
unfolding merge_step
merge_step-window r m = go (is_later r.window_end m.latest_end)
  where
    go :
        (b : Bool)
        → IsWindowOf
            (if b then r.window_start else m.paired_start)
            (if b then r.window_end else m.latest_end)
            r
          ⊎ ((m.paired_start ≡ (if b then r.window_start else m.paired_start))
              × (m.latest_end ≡ (if b then r.window_end else m.latest_end)))
    go true = inl (refl, refl)
    go false = inr (refl, refl)

merge_loop-window :
    (results : List FmcFamilyMapResult) (m : Merging)
    → Any (IsWindowOf (merge_loop results m).paired_start (merge_loop results m).latest_end) results
      ⊎ ((m.paired_start ≡ (merge_loop results m).paired_start)
          × (m.latest_end ≡ (merge_loop results m).latest_end))
unfolding merge_loop
merge_loop-window [] m = inr (refl, refl)
merge_loop-window (r ∷ results) m = elim (merge_loop-window results (merge_step r m)) [
  | inl later ↦ inl (inr later)
  | inr (s, e) ↦ elim (merge_step-window r m) [
    | inl (s', e') ↦ inl (inl (s' ∙ s, e' ∙ e))
    | inr (s', e') ↦ inr (s' ∙ s, e' ∙ e)
  ]
]

-- A time is at most another one, in the order of the integers, or missing.
abbrev pub IsAtMost : (end latest : Option ℤ) → Type 0
IsAtMost none latest = Unit
IsAtMost (some a) none = ⊥
IsAtMost (some a) (some b) = IsLe a b

is_later-IsAtMost : (end latest : Option ℤ) → IsNotLater end latest → IsAtMost end latest
is_later-IsAtMost none latest h = tt
is_later-IsAtMost (some a) none h = ground arith
is_later-IsAtMost (some a) (some b) h = gt-IsLe a b h

-- The window of a snapshot, if it has one, is the window of one of the results, its start being that of the same result,
-- and every result's end, where it has one, is at most the snapshot's in the order of the integers.
pub merge_fmc_families-window :
    (device_uid device_name : String) (results : List FmcFamilyMapResult) (s : DeviceHealthSnapshot)
    → (merge_fmc_families device_uid device_name results).snapshot ≡ some s
    → All (λ r. IsAtMost r.window_end s.window_end) results
      × (Any (IsWindowOf s.window_start s.window_end) results
          ⊎ ((s.window_start ≡ none) × (s.window_end ≡ none)))
unfolding merge_fmc_families
merge_fmc_families-window device_uid device_name results s h =
    go (merge_loop results unmerged).contributed h
  where
    go :
        (b : Bool)
        → (if not b
            then none
            else some (record {
              device_uid = device_uid;
              device_name = device_name;
              window_start = (merge_loop results unmerged).paired_start;
              window_end = (merge_loop results unmerged).latest_end;
              groups = (merge_loop results unmerged).groups;
            }))
          ≡ some s
        → All (λ r. IsAtMost r.window_end s.window_end) results
          × (Any (IsWindowOf s.window_start s.window_end) results
              ⊎ ((s.window_start ≡ none) × (s.window_end ≡ none)))
    go false h = ground arith
    go true h =
        let start : (merge_loop results unmerged).paired_start ≡ s.window_start = ground arith in
        let end : (merge_loop results unmerged).latest_end ≡ s.window_end = ground arith in
        (
          subst (λ e. All (λ r. IsAtMost r.window_end e) results) end
              (All-weaken _ _ (λ r. is_later-IsAtMost r.window_end _) results
                (merge_loop-bounds results unmerged)),
          elim (merge_loop-window results unmerged) [
            | inl w ↦ inl (
                subst (λ e. Any (IsWindowOf s.window_start e) results) end
                  (subst (λ x. Any (IsWindowOf x (merge_loop results unmerged).latest_end) results)
                    start w))
            | inr (s', e') ↦ inr (sym start ∙ sym s', sym end ∙ sym e')
          ],
        )

-- The result has no group at all.
abbrev pub IsSilent : FmcFamilyMapResult → Type 0
IsSilent r = contributes r.partial ≡ false

merge_loop-IsSilent :
    (results : List FmcFamilyMapResult) (m : Merging)
    → ((merge_loop results m).contributed ≡ false)
      ↔ ((m.contributed ≡ false) × All IsSilent results)
unfolding merge_loop merge_step
merge_loop-IsSilent [] m = ((λ h. (h, tt)), (λ h. h.0))
merge_loop-IsSilent (r ∷ results) m =
    let (forth, back) = merge_loop-IsSilent results (merge_step r m) in
    (
      (λ h.
          let (c, rest) = forth h in
          (
            or_false_left m.contributed (contributes r.partial) c,
            (or_false_right m.contributed (contributes r.partial) c, rest),
          )),
      (λ h. back (ground (arith, h), h.1.1)),
    )
  where
    or_false_left : (a b : Bool) → (a || b) ≡ false → a ≡ false
    or_false_left true b h = h
    or_false_left false b h = refl

    or_false_right : (a b : Bool) → (a || b) ≡ false → b ≡ false
    or_false_right true b h = ground arith
    or_false_right false b h = h

-- A device is left out of the snapshot exactly when none of its family results has a group.
pub merge_fmc_families-IsSilent :
    (device_uid device_name : String) (results : List FmcFamilyMapResult)
    → ((merge_fmc_families device_uid device_name results).snapshot ≡ none) ↔ All IsSilent results
unfolding merge_fmc_families
merge_fmc_families-IsSilent device_uid device_name results =
    let (forth, back) = merge_loop-IsSilent results unmerged in
    (
      (λ h. (forth (absent (merge_loop results unmerged).contributed _ h)).1),
      (λ h. present (merge_loop results unmerged).contributed _ (back (refl, h))),
    )
  where
    absent :
        (b : Bool) (s : DeviceHealthSnapshot) → (if not b then none else some s) ≡ none → b ≡ false
    absent true s h = ground arith
    absent false s h = refl

    present :
        (b : Bool) (s : DeviceHealthSnapshot) → b ≡ false → (if not b then none else some s) ≡ none
    present b s h = ground arith

merge_loop-errors :
    (results : List FmcFamilyMapResult) (m : Merging)
    → (merge_loop results m).parse_errors
      ≡ m.parse_errors ++ flatten (map (λ r. r.parse_errors) results)
unfolding merge_loop merge_step flatten
merge_loop-errors [] m = sym (append-nil m.parse_errors)
merge_loop-errors (r ∷ results) m =
    merge_loop-errors results (merge_step r m) ∙ append_assoc m.parse_errors r.parse_errors _

-- The diagnostics of a device are those of its results, in order, also when there is no snapshot.
pub merge_fmc_families-errors :
    (device_uid device_name : String) (results : List FmcFamilyMapResult)
    → (merge_fmc_families device_uid device_name results).parse_errors
      ≡ flatten (map (λ r. r.parse_errors) results)
unfolding merge_fmc_families
merge_fmc_families-errors device_uid device_name results = merge_loop-errors results unmerged
