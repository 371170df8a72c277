-- ===== src/Http/Spacing.antt =====
-- src/http/spacing.ts: the minimum-spacing guard. The clock's time at each call is an argument.
-- Spacings and times are natural numbers, so that the constructor's check of a negative or infinite
-- spacing has nothing to refuse.
use ftd_metrics_exporter.Prelude.{
  ℕ, ◌+◌, ◌-◌, ◌≤◌, ◌≡◌, Bool, List, [], ◌∷◌, Option, none, some, max, ltb, arith, false, ◌↔◌,
}

-- `min_spacing_ms` is the guard's option and `next_release_at` its variable.
pub record SpacingGuard : Type 0 where
  pub min_spacing_ms : ℕ
  pub next_release_at : Option ℕ

-- What one `wait` decides: how long it sleeps, and whether `onDefer` fires.
pub record Wait : Type 0 where
  pub release_at : ℕ
  pub delay : ℕ
  pub deferred : Bool

unfoldable pub create_spacing_guard : ℕ → SpacingGuard
create_spacing_guard min_spacing_ms = record {
  min_spacing_ms = min_spacing_ms;
  next_release_at = none;
}

abbrev pub slot : Option ℕ → ℕ → ℕ
slot none now = now
slot (some next) now = max next now

unfoldable pub wait : SpacingGuard → ℕ → SpacingGuard × Wait
wait g now =
    let release_at = slot g.next_release_at now in
    let delay = release_at - now in
    (
      record g { next_release_at = some (release_at + g.min_spacing_ms) },
      record { release_at = release_at; delay = delay; deferred = ltb 0 delay },
    )

-- The calls of concurrent callers, in the order in which they enter `wait`.
unfoldable pub releases : SpacingGuard → List ℕ → List ℕ
releases g [] = []
releases g (now ∷ nows) = let (g', w) = wait g now in w.release_at ∷ releases g' nows

-- Each time is at least `spacing` behind the one before it, and the first is at least `from`.
abbrev pub SpacedFrom : ℕ → ℕ → List ℕ → Type 0
SpacedFrom spacing from [] = Unit
SpacedFrom spacing from (t ∷ ts) = (from ≤ t) × SpacedFrom spacing (t + spacing) ts

-- The second list is nowhere earlier than the first, and as long.
abbrev pub NoEarlier : List ℕ → List ℕ → Type 0
NoEarlier [] [] = Unit
NoEarlier (x ∷ xs) (y ∷ ys) = (x ≤ y) × NoEarlier xs ys
NoEarlier _ _ = ⊥

-- The time before which the guard lets nothing through.
abbrev pub reserved : SpacingGuard → ℕ
reserved g = elim g.next_release_at [ none ↦ 0 | some next ↦ next ]

slot_bounds :
    (g : SpacingGuard) (now : ℕ)
    → (reserved g ≤ slot g.next_release_at now) × (now ≤ slot g.next_release_at now)
slot_bounds g now = ground arith

slot_least :
    (g : SpacingGuard) (now t : ℕ) → reserved g ≤ t → now ≤ t → slot g.next_release_at now ≤ t
slot_least g now t h k = ground arith

-- However late the clock says that it is, and also if the clock went back, each call is released at
-- least the minimum spacing after the one before it, the first not before the time that an earlier
-- call reserved.
pub releases-SpacedFrom :
    (g : SpacingGuard) (nows : List ℕ) → SpacedFrom g.min_spacing_ms (reserved g) (releases g nows)
unfolding releases wait
releases-SpacedFrom g [] = tt
releases-SpacedFrom g (now ∷ nows) =
    ((slot_bounds g now).0, releases-SpacedFrom (wait g now).0 nows)

-- No call is released before it is made.
pub releases-NoEarlier : (g : SpacingGuard) (nows : List ℕ) → NoEarlier nows (releases g nows)
unfolding releases wait
releases-NoEarlier g [] = tt
releases-NoEarlier g (now ∷ nows) = ((slot_bounds g now).1, releases-NoEarlier (wait g now).0 nows)

-- The guard delays no call without need: any schedule that releases no call before it is made, keeps
-- the spacing and respects the reserved time releases every call no earlier than the guard does.
pub releases_least :
    (g : SpacingGuard) (nows ts : List ℕ) (from : ℕ)
    → reserved g ≤ from
    → NoEarlier nows ts
    → SpacedFrom g.min_spacing_ms from ts
    → NoEarlier (releases g nows) ts
unfolding releases wait
releases_least g [] [] from r h k = tt
releases_least g (now ∷ nows) (t ∷ ts) from r h k =
    let first = slot_least g now t (omega arith) h.0 in
    (first, releases_least (wait g now).0 nows ts (t + g.min_spacing_ms) (omega arith) h.1 k.1)
releases_least g [] (t ∷ ts) from r h k = absurd h
releases_least g (now ∷ nows) [] from r h k = absurd h

-- A call that finds its slot free is not delayed, and `onDefer` fires exactly for one that is; the
-- time that it is released at is the time of the call and its delay together.
pub wait_lem :
    (g : SpacingGuard) (now : ℕ)
    → ((wait g now).1.release_at ≡ now + (wait g now).1.delay)
      × (((wait g now).1.deferred ≡ false) ↔ (reserved g ≤ now))
      × (reserved (wait g now).0 ≡ (wait g now).1.release_at + g.min_spacing_ms)
unfolding wait
wait_lem g now = ground arith
