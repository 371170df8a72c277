-- ===== src/Http/Limiter/Laws.antt =====
-- What holds of the limiter in every state that calls can bring about.
use ftd_metrics_exporter.Prelude.{
  ℕ, suc, ◌++◌, ◌≤◌, ◌≡◌, ◌≢◌, refl, ap, sym, ◌∙◌, List, [], ◌∷◌, some, length, arith, ◌⊎◌, inl,
  inr,
}
use ftd_metrics_exporter.Http.Limiter.{
  ConcurrencyLimiter, create_concurrency_limiter, acquire, release, without, resolved, System,
  start, finish, Step, enters, settles, Reach, here, next,
}

pub record IsSound (s : System) : Type 0 where
  pub positive : 1 ≤ s.limiter.max_concurrent
  pub counted : s.limiter.in_flight ≡ length s.running
  pub bounded : s.limiter.in_flight ≤ s.limiter.max_concurrent
  pub busy : (s.limiter.queue ≡ []) ⊎ (s.limiter.in_flight ≡ s.limiter.max_concurrent)

length-without :
    (call : ℕ) (cs : List ℕ) → without call cs ≢ cs → suc (length (without call cs)) ≡ length cs
unfolding without
length-without call [] h = absurd (h refl)
length-without call (c ∷ cs) h =
    ground (arith, length-without call cs, λ (e : without call cs ≡ cs). ap (◌∷◌ c) e)

acquire-IsSound :
    (s : System) (call : ℕ) → IsSound s → IsSound (start s call (acquire s.limiter call))
unfolding acquire
acquire-IsSound s call v = ground arith

release-IsSound :
    (s : System) (rest : List ℕ)
    → suc (length rest) ≡ length s.running
    → IsSound s
    → IsSound (finish rest (release s.limiter))
unfolding release
release-IsSound s rest h v = ground arith

taken :
    (s : System) (call : ℕ) (rest : List ℕ)
    → without call s.running ≡ rest
    → s.running ≢ rest
    → suc (length rest) ≡ length s.running
taken s call rest e ne = rw (← e) (length-without call s.running (λ same. ne (sym same ∙ e)))

Step-IsSound : {s t : System} → Step s t → IsSound s → IsSound t
Step-IsSound (enters {s} call) v = acquire-IsSound s call v
Step-IsSound (settles {s} call rest e ne) v = release-IsSound s rest (taken s call rest e ne) v

Reach-IsSound : {s t : System} → IsSound s → Reach s t → IsSound t
Reach-IsSound v here = v
Reach-IsSound v (next r st) = Step-IsSound st (Reach-IsSound v r)

abbrev pub initial : ConcurrencyLimiter → System
initial l = record { limiter = l; running = [] }

create-IsSound :
    (n : ℕ) (l : ConcurrencyLimiter)
    → create_concurrency_limiter n ≡ some l
    → IsSound (initial l) × (l.max_concurrent ≡ n)
unfolding create_concurrency_limiter
create-IsSound n l e = ground arith

Step-max : {s t : System} → Step s t → t.limiter.max_concurrent ≡ s.limiter.max_concurrent
unfolding acquire release
Step-max (enters {s} call) = ground arith
Step-max (settles {s} call rest e ne) = ground arith

Reach-max : {s t : System} → Reach s t → t.limiter.max_concurrent ≡ s.limiter.max_concurrent
Reach-max here = refl
Reach-max (next r st) = Step-max st ∙ Reach-max r

-- From a limiter for n calls, however calls enter and settle: `inFlight` is the number of calls that
-- hold a slot, at most n do, and while a call waits all n slots are taken.
pub Reach-bounded :
    (n : ℕ) (l : ConcurrencyLimiter) (t : System)
    → create_concurrency_limiter n ≡ some l
    → Reach (initial l) t
    → (t.limiter.in_flight ≡ length t.running)
      × (length t.running ≤ n)
      × ((t.limiter.queue ≡ []) ⊎ (length t.running ≡ n))
Reach-bounded n l t e r =
    let (sound, same) = create-IsSound n l e in ground (arith, Reach-IsSound sound r, Reach-max r)

queue_cases : (q : List ℕ) → (q ≡ []) ⊎ ((c : ℕ) × (cs : List ℕ) × (q ≡ c ∷ cs))
queue_cases [] = inl refl
queue_cases (c ∷ cs) = inr (c, cs, refl)

-- In a sound state of the limiter calls are served in the order in which they came: one that has to
-- wait goes to the end of the queue, and a slot that is given back goes to the call at the front,
-- without being free in between; only if none waits is a slot free afterwards.
pub acquire-release_order :
    (s : System) (call : ℕ) (rest : List ℕ)
    → IsSound s
    → suc (length rest) ≡ length s.running
    → (((acquire s.limiter call).1 ≡ resolved)
        ⊎ ((start s call (acquire s.limiter call)).limiter.queue ≡ s.limiter.queue ++ call ∷ []))
      × (((s.limiter.queue ≡ [])
            × (suc (finish rest (release s.limiter)).limiter.in_flight ≡ s.limiter.in_flight))
          ⊎ ((c : ℕ) × (cs : List ℕ) × (s.limiter.queue ≡ c ∷ cs)
              × (finish rest (release s.limiter)
                  ≡ record { limiter = record s.limiter { queue = cs }; running = c ∷ rest })))
unfolding acquire release
acquire-release_order s call rest v h = (
  ground arith,
  elim (queue_cases s.limiter.queue) [
    | inl e ↦ inl (e, ground arith)
    | inr (c, cs, e) ↦ inr (c, cs, e, ground arith)
  ],
)
