-- ===== src/Util/ObjectPool/Sharing.antt =====
-- Whether two callers can hold one object.
use aevum.Prelude.{ℕ, ◌+◌, ◌≡◌, ◌≤◌, ◌<◌, refl, [], ◌∷◌, List, some, if◌then◌else◌, ◌==◌, arith}
use aevum.Util.ObjectPool.{
  ObjectPool, take_back, acquire, release, Event, acquires, releases, give_up, Usage, step, run,
}

abbrev pub count : ℕ → List ℕ → ℕ
count obj [] = 0
count obj (x ∷ xs) = (if x == obj then 1 else 0) + count obj xs

-- In how many places the object is: in the pool, or in the hands of a caller.
abbrev pub places : ℕ → Usage → ℕ
places obj u = count obj u.state.pool + count obj u.held

-- `new` gives an address that is in no place, and a caller releases what it holds.
abbrev pub IsFair : List Event → Usage → Type 0
IsFair [] u = Unit {0}
IsFair (acquires fresh ∷ es) u = (places fresh u ≡ 0) × IsFair es (step (acquires fresh) u)
IsFair (releases obj ∷ es) u = (0 < count obj u.held) × IsFair es (step (releases obj) u)

count-give_up :
    (obj x : ℕ) (xs : List ℕ)
    → 0 < count x xs
    → count obj (give_up x xs) + (if x == obj then 1 else 0) ≡ count obj xs
unfolding give_up
count-give_up obj x [] h = absurd (omega arith)
count-give_up obj x (y ∷ ys) h = ground (arith, count-give_up obj x ys, h)

acquires-places :
    (obj fresh : ℕ) (pool held : List ℕ)
    → count fresh pool + count fresh held ≡ 0
    → count obj pool + count obj held ≤ 1
    → count obj (take_back fresh pool).1.pool + count obj ((take_back fresh pool).0 ∷ held) ≤ 1
unfolding take_back
acquires-places obj fresh [] held unused h = ground (arith, unused, h)
acquires-places obj fresh (x ∷ pool) held unused h = omega (arith, h)

step_acquires :
    (obj fresh : ℕ) (u : Usage)
    → places fresh u ≡ 0
    → places obj u ≤ 1
    → places obj (step (acquires fresh) u) ≤ 1
unfolding step acquire
step_acquires obj fresh u unused h = acquires-places obj fresh u.state.pool u.held unused h

step_releases :
    (obj x : ℕ) (u : Usage)
    → 0 < count x u.held
    → places obj u ≤ 1
    → places obj (step (releases x) u) ≤ 1
unfolding step release
step_releases obj x u owned h = omega (arith, count-give_up obj x u.held owned, h)

-- Where `new` gives addresses that are in use nowhere and callers release only what they hold, an
-- object is always in one place at most: the pool never hands it to two callers, and never
-- deletes what a caller holds.
pub run-places :
    (events : List Event) (u : Usage) (obj : ℕ)
    → IsFair events u
    → ((x : ℕ) → places x u ≤ 1)
    → places obj (run events u) ≤ 1
unfolding run
run-places [] u obj fair h = h obj
run-places (acquires fresh ∷ es) u obj fair h =
    run-places es (step (acquires fresh) u) obj fair.1 (λ x. step_acquires x fresh u fair.0 (h x))
run-places (releases y ∷ es) u obj fair h =
    run-places es (step (releases y) u) obj fair.1 (λ x. step_releases x y u fair.0 (h x))

-- An object that is released twice is handed to the next two callers.
pub acquire-release_twice :
    (obj fresh fresh' : ℕ) (p : ObjectPool)
    → let (first, p') = acquire fresh (release (some obj) (release (some obj) p)) in
      let (second, p'') = acquire fresh' p' in (first ≡ obj) × ((second ≡ obj) × (p'' ≡ p))
unfolding acquire release
acquire-release_twice obj fresh fresh' p = (refl, (refl, refl))
