-- ===== src/Util/Pool/Shutdown.antt =====
-- What holds once the destructor has waited for the workers, and that it need not wait for ever.
use aevum.Prelude.{
  ℕ, zero, suc, ◌<◌, ◌≡◌, refl, ap, sym, ◌∙◌, Bool, true, false, ◌||◌, [], ◌∷◌, List, arith,
  Bool-cases, inl, inr, length,
}
use aevum.Util.Pool.{
  Worker, waiting, sleeping, exited, running, awake, notify_one, notify_all, ThreadPool, enqueue,
  take_task, worker_turn, turn_of, shut_down, all_exited, idle_workers, start, Event, submit, turn,
  destroy, wake, wake_all, History, step, run, begin,
}
use aevum.Util.Pool.Conservation.{tally, held, held_by, run-IsConserved}

module _ {A : Type 0} where
  any_exited : List (Worker A) → Bool
  any_exited [] = false
  any_exited (exited ∷ ws) = true
  any_exited (w ∷ ws) = any_exited ws

  -- A worker returns only from a stopped pool with an empty queue, and both stay so.
  abbrev LeavesNothing : ThreadPool A → Type 0
  LeavesNothing pool = any_exited pool.workers ≡ true → (pool.stop ≡ true) × (pool.tasks ≡ [])

  empty_turn : (i : ℕ) (ws : List (Worker A)) → (turn_of i true ws []).0.1 ≡ []
  unfolding turn_of worker_turn take_task
  empty_turn zero [] = refl
  empty_turn (suc i) [] = refl
  empty_turn zero (waiting ∷ ws) = refl
  empty_turn zero (sleeping ∷ ws) = refl
  empty_turn zero (exited ∷ ws) = refl
  empty_turn zero (running x ∷ ws) = refl
  empty_turn (suc i) (w ∷ ws) = empty_turn i ws

  any_exited-cons :
      (w : Worker A) (ws : List (Worker A))
      → any_exited (w ∷ ws) ≡ (any_exited (w ∷ []) || any_exited ws)
  unfolding any_exited
  any_exited-cons waiting ws = refl
  any_exited-cons sleeping ws = refl
  any_exited-cons exited ws = refl
  any_exited-cons (running x) ws = refl

  first_exit :
      (i : ℕ) (stop : Bool) (ws : List (Worker A)) (tasks : List A)
      → any_exited ws ≡ false
      → any_exited (turn_of i stop ws tasks).0.0 ≡ true
      → (stop ≡ true) × ((turn_of i stop ws tasks).0.1 ≡ [])
  unfolding turn_of worker_turn take_task any_exited
  first_exit zero stop [] tasks none_yet h = absurd cc
  first_exit (suc i) stop [] tasks none_yet h = absurd cc
  first_exit zero false (waiting ∷ ws) [] none_yet h = absurd cc
  first_exit zero true (waiting ∷ ws) [] none_yet h = (refl, refl)
  first_exit zero false (waiting ∷ ws) (x ∷ tasks) none_yet h = absurd cc
  first_exit zero true (waiting ∷ ws) (x ∷ tasks) none_yet h = absurd cc
  first_exit zero stop (sleeping ∷ ws) tasks none_yet h = absurd cc
  first_exit zero stop (exited ∷ ws) tasks none_yet h = absurd cc
  first_exit zero stop (running x ∷ ws) tasks none_yet h = absurd cc
  first_exit (suc i) stop (waiting ∷ ws) tasks none_yet h = first_exit i stop ws tasks none_yet h
  first_exit (suc i) stop (sleeping ∷ ws) tasks none_yet h = first_exit i stop ws tasks none_yet h
  first_exit (suc i) stop (exited ∷ ws) tasks none_yet h = absurd cc
  first_exit (suc i) stop (running x ∷ ws) tasks none_yet h = first_exit i stop ws tasks none_yet h

  any_exited-awake :
      (w : Worker A) (ws us : List (Worker A))
      → any_exited ws ≡ any_exited us
      → any_exited (awake w ∷ ws) ≡ any_exited (w ∷ us)
  unfolding any_exited awake
  any_exited-awake waiting ws us h = h
  any_exited-awake sleeping ws us h = h
  any_exited-awake exited ws us h = refl
  any_exited-awake (running x) ws us h = h

  any_exited-notify_one :
      (i : ℕ) (ws : List (Worker A)) → any_exited (notify_one i ws) ≡ any_exited ws
  unfolding any_exited notify_one
  any_exited-notify_one i [] = refl
  any_exited-notify_one zero (w ∷ ws) = any_exited-awake w ws ws refl
  any_exited-notify_one (suc i) (waiting ∷ ws) = any_exited-notify_one i ws
  any_exited-notify_one (suc i) (sleeping ∷ ws) = any_exited-notify_one i ws
  any_exited-notify_one (suc i) (exited ∷ ws) = refl
  any_exited-notify_one (suc i) (running x ∷ ws) = any_exited-notify_one i ws

  any_exited-notify_all : (ws : List (Worker A)) → any_exited (notify_all ws) ≡ any_exited ws
  unfolding notify_all
  any_exited-notify_all [] = refl
  any_exited-notify_all (w ∷ ws) = any_exited-awake w (notify_all ws) ws (any_exited-notify_all ws)

  step-LeavesNothing :
      (event : Event A) (h : History A) → LeavesNothing h.pool → LeavesNothing (step event h).pool
  unfolding step enqueue shut_down
  step-LeavesNothing (submit x) h ih left = ground (arith, ih)
  step-LeavesNothing (turn i) h ih left = elim (Bool-cases (any_exited h.pool.workers)) [
    | inl before ↦ ((ih before).0, rw ((ih before).0, (ih before).1) (empty_turn i h.pool.workers))
    | inr now ↦ first_exit i h.pool.stop h.pool.workers h.pool.tasks now left
  ]
  step-LeavesNothing destroy h ih left = (refl, (ih left).1)
  step-LeavesNothing (wake i) h ih left = ih (sym (any_exited-notify_one i h.pool.workers) ∙ left)
  step-LeavesNothing wake_all h ih left = ih (sym (any_exited-notify_all h.pool.workers) ∙ left)

  run-LeavesNothing :
      (events : List (Event A)) (h : History A)
      → LeavesNothing h.pool
      → LeavesNothing (run events h).pool
  unfolding run
  run-LeavesNothing [] h ih = ih
  run-LeavesNothing (event ∷ events) h ih =
      run-LeavesNothing events (step event h) (step-LeavesNothing event h ih)

module _ (A : Type 0) where
  any_exited-idle_workers : (n : ℕ) → any_exited (idle_workers {A = A} n) ≡ false
  unfolding any_exited idle_workers
  any_exited-idle_workers zero = refl
  any_exited-idle_workers (suc n) = any_exited-idle_workers n

module _ {A : Type 0} where
  held_by-all_exited :
      (q : A → Bool) (ws : List (Worker A)) → all_exited ws ≡ true → held_by q ws ≡ 0
  unfolding held_by held all_exited
  held_by-all_exited q [] h = refl
  held_by-all_exited q (waiting ∷ ws) h = absurd cc
  held_by-all_exited q (sleeping ∷ ws) h = absurd cc
  held_by-all_exited q (exited ∷ ws) h = omega (arith, held_by-all_exited q ws h)
  held_by-all_exited q (running x ∷ ws) h = absurd cc

  length-turn_of :
      (i : ℕ) (stop : Bool) (ws : List (Worker A)) (tasks : List A)
      → length (turn_of i stop ws tasks).0.0 ≡ length ws
  unfolding turn_of
  length-turn_of zero stop [] tasks = refl
  length-turn_of (suc i) stop [] tasks = refl
  length-turn_of zero stop (w ∷ ws) tasks = refl
  length-turn_of (suc i) stop (w ∷ ws) tasks = omega (arith, length-turn_of i stop ws tasks)

  length-notify_one : (i : ℕ) (ws : List (Worker A)) → length (notify_one i ws) ≡ length ws
  unfolding notify_one
  length-notify_one i [] = refl
  length-notify_one zero (w ∷ ws) = refl
  length-notify_one (suc i) (w ∷ ws) = omega (arith, length-notify_one i ws)

  length-notify_all : (ws : List (Worker A)) → length (notify_all ws) ≡ length ws
  unfolding notify_all
  length-notify_all [] = refl
  length-notify_all (w ∷ ws) = omega (arith, length-notify_all ws)

  pub length-run :
      (events : List (Event A)) (h : History A)
      → length (run events h).pool.workers ≡ length h.pool.workers
  unfolding run step enqueue shut_down
  length-run [] h = refl
  length-run (submit x ∷ events) h = length-run events (step (submit x) h) ∙ ground arith
  length-run (turn i ∷ events) h =
      length-run events (step (turn i) h) ∙ length-turn_of i h.pool.stop h.pool.workers h.pool.tasks
  length-run (destroy ∷ events) h = length-run events (step destroy h)
  length-run (wake i ∷ events) h =
      length-run events (step (wake i) h) ∙ length-notify_one i h.pool.workers
  length-run (wake_all ∷ events) h =
      length-run events (step wake_all h) ∙ length-notify_all h.pool.workers

  some_exited : (ws : List (Worker A)) → 0 < length ws → all_exited ws ≡ true → any_exited ws ≡ true
  unfolding all_exited any_exited
  some_exited [] long h = absurd (omega arith)
  some_exited (waiting ∷ ws) long h = absurd cc
  some_exited (sleeping ∷ ws) long h = absurd cc
  some_exited (exited ∷ ws) long h = refl
  some_exited (running x ∷ ws) long h = absurd cc

  -- In every order of events, once every worker of a pool with one at least has returned, every
  -- task that was accepted has been finished, as often as it was accepted.
  pub tally-all_exited :
      (q : A → Bool) (threads : ℕ) (events : List (Event A))
      → all_exited (run events (begin (suc threads))).pool.workers ≡ true
      → tally q (run events (begin (suc threads))).finished
        ≡ tally q (run events (begin (suc threads))).accepted
  unfolding tally begin start idle_workers any_exited
  tally-all_exited q threads events h =
      let after = run events (begin (suc threads)) in
      let quiet =
        run-LeavesNothing events (begin (suc threads))
          (λ e. absurd (ground (arith, e, any_exited-idle_workers A threads))) in
      let left = quiet (
        some_exited after.pool.workers (omega (arith, length-run events (begin (suc threads))))
          h) in
      let empty : tally q after.pool.tasks ≡ 0 = ap (tally q) left.1 in
      omega (
        arith,
        run-IsConserved q (suc threads) events,
        held_by-all_exited q after.pool.workers h,
        empty,
      )
