-- ===== src/Util/Spinlock/Exclusion.antt =====
-- No two threads hold the lock.
use aevum.Prelude.{
  ℕ, ◌≡◌, ◌≤◌, refl, Bool, true, false, not, [], ◌∷◌, List, length, keep, if◌then◌else◌, ◌==◌,
  arith,
}
use aevum.Util.Spinlock.{Holding, Event, tries, releases, step, run}

abbrev pub holds : ℕ → List ℕ → Bool
holds thread [] = false
holds thread (t ∷ ts) = if t == thread then true else holds thread ts

-- Only a thread that holds the lock releases it.
abbrev pub IsDisciplined : List Event → Holding → Type 0
IsDisciplined [] h = Unit {0}
IsDisciplined (tries thread ∷ es) h = IsDisciplined es (step (tries thread) h)
IsDisciplined (releases thread ∷ es) h =
    (holds thread h.holders ≡ true) × IsDisciplined es (step (releases thread) h)

-- The flag is set exactly while one thread holds the lock.
abbrev pub IsExclusive : Holding → Type 0
IsExclusive h = length h.holders ≡ (if h.spinlock.flag then 1 else 0)

tries-IsExclusive : (thread : ℕ) (h : Holding) → IsExclusive h → IsExclusive (step (tries thread) h)
unfolding step
tries-IsExclusive thread h e = ground (arith, e)

at_most_one :
    (thread : ℕ) (ts : List ℕ)
    → length ts ≤ 1
    → holds thread ts ≡ true
    → keep (λ t. not (t == thread)) ts ≡ []
at_most_one thread [] h k = absurd cc
at_most_one thread (t ∷ []) h k = ground (arith, k)
at_most_one thread (t ∷ u ∷ ts) h k = absurd (omega arith)

releases-IsExclusive :
    (thread : ℕ) (h : Holding)
    → holds thread h.holders ≡ true
    → IsExclusive h
    → IsExclusive (step (releases thread) h)
unfolding step
releases-IsExclusive thread h owned e =
    let few : length h.holders ≤ 1 = ground (arith, e) in
    rw (at_most_one thread h.holders few owned) refl

-- Where only a thread that holds the lock releases it, at every time at most one thread holds it,
-- and none does exactly when the flag is clear, however the rounds of `lock`, the calls of
-- `try_lock` and of `unlock` follow one another.
pub run-IsExclusive :
    (events : List Event) (h : Holding)
    → IsDisciplined events h
    → IsExclusive h
    → IsExclusive (run events h)
unfolding run
run-IsExclusive [] h disciplined e = e
run-IsExclusive (tries thread ∷ es) h disciplined e =
    run-IsExclusive es (step (tries thread) h) disciplined (tries-IsExclusive thread h e)
run-IsExclusive (releases thread ∷ es) h disciplined e =
    run-IsExclusive es (step (releases thread) h) disciplined.1
      (releases-IsExclusive thread h disciplined.0 e)
