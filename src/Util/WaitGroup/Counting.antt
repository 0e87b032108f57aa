-- ===== src/Util/WaitGroup/Counting.antt =====
-- How many calls of `done` a wait group needs, and what a counter below zero does to it.
use aevum.Prelude.{
  ℕ, zero, suc, ◌+◌, ◌≡◌, refl, ap, sym, subst, ◌∙◌, ◌==◌, ◌≤◌, ◌-◌, leb, Bool, true, false, ◌∷◌,
  List, ℤ, pos, negsuc, arith, all,
}
use aevum.Util.WaitGroup.{
  WaitGroup, Returned, quietly, notifying, invalid_argument, logic_error, check, ◌+ℤ◌, add,
  count_down, done, is_zero, wait, dones,
}

-- The call threw nothing.
abbrev pub succeeded : Returned → Bool
succeeded quietly = true
succeeded notifying = true
succeeded invalid_argument = false
succeeded logic_error = false

abbrev at : ℤ → WaitGroup
at c = record { counter = c }

done_pos :
    (n : ℕ)
    → (succeeded (done (at (pos (suc n)))).0 ≡ true) × ((done (at (pos (suc n)))).1 ≡ at (pos n))
unfolding done count_down
done_pos zero = (refl, refl)
done_pos (suc n) = (refl, refl)

-- What the calls of `done` come to.
abbrev Counts : ℕ → List Returned × WaitGroup → Type 0
Counts left (returned, w) =
    (all succeeded returned ≡ true) × (w ≡ at (pos left)) × (wait w ≡ (left == 0))

wait-pos : (n : ℕ) → wait (at (pos n)) ≡ (n == 0)
unfolding wait is_zero
wait-pos zero = refl
wait-pos (suc n) = ground arith

after_done :
    (left : ℕ) (r : Returned) (rest : List Returned × WaitGroup)
    → succeeded r ≡ true
    → Counts left rest
    → Counts left (r ∷ rest.0, rest.1)
after_done left r rest h (oks, same, waits) = (ground (arith, h, oks), same, waits)

dones-Counts : (k c left : ℕ) → c ≡ k + left → Counts left (dones k (at (pos c)))
unfolding dones
dones-Counts zero c left e =
    let same : c ≡ left = omega (arith, e) in
    (refl, ap (λ n. at (pos n)) same, wait-pos c ∙ ap (λ n. n == 0) same)
dones-Counts (suc k) zero left e = absurd (omega (arith, e))
dones-Counts (suc k) (suc c) left e =
    let (fine, next) = done_pos c in
    after_done left (done (at (pos (suc c)))).0 (dones k (done (at (pos (suc c)))).1) fine
      (subst (λ w. Counts left (dones k w)) (sym next) (dones-Counts k c left (omega (arith, e))))

-- From a counter that is not negative, as many calls of `done` as it allows throw nothing and leave
-- it lower by their number, and a thread goes on from `wait` exactly if nothing is left.
pub wait-dones :
    (k left : ℕ)
    → let (returned, w) = dones k (at (pos (k + left))) in
      (all succeeded returned ≡ true) × (w ≡ at (pos left)) × (wait w ≡ (left == 0))
wait-dones k left = dones-Counts k (k + left) left refl

abbrev pub refused : Returned → Bool
refused logic_error = true
refused _ = false

dones-negsuc :
    (k n : ℕ)
    → (all refused (dones k (at (negsuc n))).0 ≡ true)
      × ((dones k (at (negsuc n))).1 ≡ at (negsuc n))
unfolding dones done count_down
dones-negsuc zero n = (refl, refl)
dones-negsuc (suc k) n = dones-negsuc k n

wait-negsuc : (n : ℕ) → wait (at (negsuc n)) ≡ false
unfolding wait is_zero
wait-negsuc n = refl

-- A call of `add` that takes a counter below zero throws and leaves it there: from then on every
-- call of `done` throws and changes nothing, and no thread goes on from `wait`.
pub add-stuck :
    (c m k : ℕ)
    → c ≤ m
    → let (returned, w) = add (negsuc m) (at (pos c)) in
      (returned ≡ invalid_argument)
      × (all refused (dones k w).0 ≡ true)
      × (wait (dones k w).1 ≡ false)
unfolding add ◌+ℤ◌ check
add-stuck c m k h =
    let below : leb (0 + suc m) (c + 0) ≡ false = ground (arith, h) in
    let (all_refused, same) = dones-negsuc k (0 + suc m - (c + 0) - 1) in
    rw below (refl, all_refused, ap wait same ∙ wait-negsuc _)
