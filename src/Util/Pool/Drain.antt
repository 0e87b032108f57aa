-- ===== src/Util/Pool/Drain.antt =====
-- The destructor's wait for the workers, once it has notified them.
use aevum.Prelude.{
  ℕ, zero, suc, ◌+◌, ◌≤◌, ◌<◌, ◌≡◌, refl, ap, sym, ◌∙◌, true, [], ◌∷◌, ◌++◌, List, arith,
  Bool-cases, ◌⊎◌, inl, inr, length, take,
}
use aevum.Util.Pool.Shutdown.{length-run}
use aevum.Util.Pool.{
  Worker, waiting, sleeping, exited, running, ThreadPool, enqueue, all_exited, Event, submit, turn,
  destroy, wake, wake_all, shut_down, destructor, History, step, run,
}
use aevum.Util.Pool.Turns.{
  weight, weights, turns_left, IsStopping, exited_at, turn_of-exited, turn_of-works,
  turn_of-sleeping, any_sleeping-notify_all,
}

module _ {A : Type 0} where
  all_exited-take :
      (n : ℕ) (ws : List (Worker A))
      → exited_at n ws ≡ true
      → all_exited (take n ws) ≡ true
      → all_exited (take (suc n) ws) ≡ true
  unfolding all_exited exited_at
  all_exited-take zero [] e h = refl
  all_exited-take (suc n) [] e h = refl
  all_exited-take zero (exited ∷ ws) e h = refl
  all_exited-take zero (waiting ∷ ws) e h = absurd cc
  all_exited-take zero (sleeping ∷ ws) e h = absurd cc
  all_exited-take zero (running x ∷ ws) e h = absurd cc
  all_exited-take (suc n) (exited ∷ ws) e h = all_exited-take n ws e h
  all_exited-take (suc n) (waiting ∷ ws) e h = absurd cc
  all_exited-take (suc n) (sleeping ∷ ws) e h = absurd cc
  all_exited-take (suc n) (running x ∷ ws) e h = absurd cc

  -- A turn for each of the workers below a number.
  unfoldable pub turns : ℕ → List (Event A)
  turns zero = []
  turns (suc n) = turn n ∷ turns n

  unfoldable pub rounds : ℕ → ℕ → List (Event A)
  unfolding turns
  rounds zero n = []
  rounds (suc k) n = turns n ++ rounds k n

  run-append : (xs ys : List (Event A)) (h : History A) → run (xs ++ ys) h ≡ run ys (run xs h)
  unfolding run
  run-append [] ys h = refl
  run-append (x ∷ xs) ys h = run-append xs ys (step x h)

  -- A pool that is being shut down, after a turn for the worker: either the worker had returned and nothing
  -- changes, or one of the turns that are left is gone.
  step-works :
      (i : ℕ) (h : History A)
      → IsStopping h
      → ((exited_at i h.pool.workers ≡ true) × ((step (turn i) h).pool ≡ h.pool))
        ⊎ (turns_left (step (turn i) h).pool + 1 ≡ turns_left h.pool)
  unfolding step turns_left
  step-works i h stopped = elim (Bool-cases (exited_at i h.pool.workers)) [
    | inl gone ↦ inl (gone, rw (turn_of-exited i h.pool.stop h.pool.workers h.pool.tasks gone) refl)
    | inr here ↦ inr (rw stopped.0 (turn_of-works i h.pool.workers h.pool.tasks stopped.1 here))
  ]

  turn-IsStopping : (i : ℕ) (h : History A) → IsStopping h → IsStopping (step (turn i) h)
  unfolding step
  turn-IsStopping i h (stopped, up) =
      (stopped, rw stopped (turn_of-sleeping i h.pool.workers h.pool.tasks up))

  none_left : (ws : List (Worker A)) → weights ws ≡ 0 → all_exited ws ≡ true
  unfolding weights weight all_exited
  none_left [] h = refl
  none_left (exited ∷ ws) h = none_left ws (omega (arith, h))
  none_left (waiting ∷ ws) h = absurd (omega (arith, h))
  none_left (sleeping ∷ ws) h = absurd (omega (arith, h))
  none_left (running x ∷ ws) h = absurd (omega (arith, h))

  weights-turns_left : (pool : ThreadPool A) → weights pool.workers ≤ turns_left pool
  unfolding turns_left
  weights-turns_left pool = omega arith

  -- After a turn for each worker: either all had returned and nothing changes, or fewer turns are
  -- left.
  turns-works :
      (n : ℕ) (h : History A)
      → IsStopping h
      → ((all_exited (take n h.pool.workers) ≡ true) × ((run (turns n) h).pool ≡ h.pool))
        ⊎ (turns_left (run (turns n) h).pool < turns_left h.pool)
  unfolding turns run all_exited
  turns-works zero h stopped = inl (refl, refl)
  turns-works (suc n) h stopped =
      let h' = step (turn n) h in
      let stopped' : IsStopping h' = turn-IsStopping n h stopped in
      elim (step-works n h stopped) [
        | inl (gone, same) ↦ elim (turns-works n h' stopped') [
          | inl (others, same') ↦ inl (
            all_exited-take n h.pool.workers gone
                (ap (λ (p : ThreadPool A). all_exited (take n p.workers)) (sym same) ∙ others),
            same' ∙ same,
          )
          | inr fewer ↦ inr (omega (arith, fewer, ap turns_left same))
        ]
        | inr fewer ↦ elim (turns-works n h' stopped') [
          | inl (others, same') ↦ inr (omega (arith, fewer, ap turns_left same'))
          | inr fewer' ↦ inr (omega (arith, fewer, fewer'))
        ]
      ]

  turns-IsStopping : (n : ℕ) (h : History A) → IsStopping h → IsStopping (run (turns n) h)
  unfolding turns run
  turns-IsStopping zero h stopped = stopped
  turns-IsStopping (suc n) h stopped =
      turns-IsStopping n (step (turn n) h) (turn-IsStopping n h stopped)

  turns-length :
      (n : ℕ) (h : History A) → length (run (turns n) h).pool.workers ≡ length h.pool.workers
  turns-length n h = length-run (turns n) h

  all_exited-exited_at :
      (i : ℕ) (ws : List (Worker A)) → all_exited ws ≡ true → exited_at i ws ≡ true
  unfolding all_exited exited_at
  all_exited-exited_at i [] h = refl
  all_exited-exited_at zero (exited ∷ ws) h = refl
  all_exited-exited_at (suc i) (exited ∷ ws) h = all_exited-exited_at i ws h
  all_exited-exited_at i (waiting ∷ ws) h = absurd cc
  all_exited-exited_at i (sleeping ∷ ws) h = absurd cc
  all_exited-exited_at i (running x ∷ ws) h = absurd cc

  -- When all have returned, further turns change nothing.
  HasEnded : History A → Type 0
  HasEnded h = all_exited h.pool.workers ≡ true

  turns-HasEnded : (n : ℕ) (h : History A) → HasEnded h → HasEnded (run (turns n) h)
  unfolding HasEnded turns run step
  turns-HasEnded zero h ended = ended
  turns-HasEnded (suc n) h ended = turns-HasEnded n (step (turn n) h) (
      rw
        (turn_of-exited n h.pool.stop h.pool.workers h.pool.tasks
          (all_exited-exited_at n h.pool.workers ended))
        ended)

  rounds-HasEnded : (k n : ℕ) (h : History A) → HasEnded h → HasEnded (run (rounds k n) h)
  unfolding rounds run
  rounds-HasEnded zero n h ended = ended
  rounds-HasEnded (suc k) n h ended =
      rw (run-append (turns n) (rounds k n) h)
        (rounds-HasEnded k n (run (turns n) h) (turns-HasEnded n h ended))

  take-length : (ws : List (Worker A)) → take (length ws) ws ≡ ws
  take-length [] = refl
  take-length (w ∷ ws) = ap (λ r. w ∷ r) (take-length ws)

  rounds-exited :
      (k : ℕ) (h : History A) (n : ℕ)
      → IsStopping h
      → n ≡ length h.pool.workers
      → turns_left h.pool ≤ k
      → all_exited (run (rounds k n) h).pool.workers ≡ true
  unfolding rounds run HasEnded
  rounds-exited zero h n stopped size few =
      none_left h.pool.workers (omega (arith, few, weights-turns_left h.pool))
  rounds-exited (suc k) h n stopped size few =
      rw (run-append (turns n) (rounds k n) h) (elim (turns-works n h stopped) [
        | inl (gone, same) ↦ rounds-HasEnded k n (run (turns n) h) (
            turns-HasEnded n h (
              ap all_exited
                (sym (ap (λ m. take m h.pool.workers) size ∙ take-length h.pool.workers))
              ∙ gone))
        | inr fewer ↦
            rounds-exited k (run (turns n) h) n (turns-IsStopping n h stopped)
              (size ∙ sym (turns-length n h)) (omega (arith, fewer, few))
      ])

  -- A stopped pool stays so.
  run-stop :
      (events : List (Event A)) (h : History A)
      → h.pool.stop ≡ true
      → (run events h).pool.stop ≡ true
  unfolding run step shut_down enqueue
  run-stop [] h stopped = stopped
  run-stop (submit x ∷ events) h stopped =
      run-stop events (step (submit x) h) (ground (arith, stopped))
  run-stop (turn i ∷ events) h stopped = run-stop events (step (turn i) h) stopped
  run-stop (destroy ∷ events) h stopped = run-stop events (step destroy h) refl
  run-stop (wake i ∷ events) h stopped = run-stop events (step (wake i) h) stopped
  run-stop (wake_all ∷ events) h stopped = run-stop events (step wake_all h) stopped

  destructor-IsStopping :
      (meantime : List (Event A)) (h : History A) → IsStopping (run (destructor meantime) h)
  unfolding destructor run step shut_down
  destructor-IsStopping meantime h =
      let before = run meantime (step destroy h) in
      rw (run-append meantime (wake_all ∷ []) (step destroy h))
        (run-stop meantime (step destroy h) refl, any_sleeping-notify_all before.pool.workers)

  -- Whatever the pool did before, whether workers sleep or run tasks, and whatever other threads do
  -- between the destructor's stop and its notification: of the rounds that then give every worker a
  -- turn, as many as there are turns left make every worker return, so that the joins end.
  pub all_exited-destructor :
      (h : History A) (meantime : List (Event A))
      → let stopped = run (destructor meantime) h in
        all_exited
          (run
            (rounds (turns_left stopped.pool) (length stopped.pool.workers))
            stopped).pool.workers
        ≡ true
  all_exited-destructor h meantime =
      let stopped = run (destructor meantime) h in
      rounds-exited (turns_left stopped.pool) stopped (length stopped.pool.workers)
        (destructor-IsStopping meantime h) refl (omega arith)
