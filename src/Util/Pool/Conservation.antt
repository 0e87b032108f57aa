-- ===== src/Util/Pool/Conservation.antt =====
-- No task is lost or run twice.
use aevum.Prelude.{
  ℕ, zero, suc, ◌+◌, ◌≡◌, refl, Bool, true, false, [], ◌∷◌, ◌++◌, List, if◌then◌else◌, arith,
}
use aevum.Util.Pool.{
  Worker, waiting, sleeping, exited, running, awake, notify_one, notify_all, enqueue, take_task,
  worker_turn, turn_of, shut_down, idle_workers, start, Event, submit, turn, destroy, wake,
  wake_all, History, step, run, begin,
}

module _ {A : Type 0} (q : A → Bool) where
  unfoldable pub one : A → ℕ
  one x = if q x then 1 else 0

  -- How many elements pass the test.
  unfoldable pub tally : List A → ℕ
  unfolding one
  tally [] = 0
  tally (x ∷ xs) = one x + tally xs

  unfoldable pub held : Worker A → ℕ
  unfolding one
  held waiting = 0
  held sleeping = 0
  held exited = 0
  held (running x) = one x

  unfoldable pub held_by : List (Worker A) → ℕ
  unfolding held
  held_by [] = 0
  held_by (w ∷ ws) = held w + held_by ws

  tally-append : (xs ys : List A) → tally (xs ++ ys) ≡ tally xs + tally ys
  unfolding tally
  tally-append [] ys = omega arith
  tally-append (x ∷ xs) ys = omega (arith, tally-append xs ys)

  tally-worker_turn :
      (stop : Bool) (w : Worker A) (tasks : List A)
      → held (worker_turn stop w tasks).0.0
          + tally (worker_turn stop w tasks).0.1
          + tally (worker_turn stop w tasks).1
        ≡ held w + tally tasks
  unfolding worker_turn take_task held tally
  tally-worker_turn false waiting [] = refl
  tally-worker_turn true waiting [] = refl
  tally-worker_turn false waiting (x ∷ tasks) = omega arith
  tally-worker_turn true waiting (x ∷ tasks) = omega arith
  tally-worker_turn stop (running x) tasks = omega arith
  tally-worker_turn stop sleeping tasks = omega arith
  tally-worker_turn stop exited tasks = omega arith

  tally-turn_of :
      (i : ℕ) (stop : Bool) (ws : List (Worker A)) (tasks : List A)
      → held_by (turn_of i stop ws tasks).0.0
          + tally (turn_of i stop ws tasks).0.1
          + tally (turn_of i stop ws tasks).1
        ≡ held_by ws + tally tasks
  unfolding turn_of held_by tally
  tally-turn_of zero stop [] tasks = omega arith
  tally-turn_of (suc i) stop [] tasks = omega arith
  tally-turn_of zero stop (w ∷ ws) tasks = omega (arith, tally-worker_turn stop w tasks)
  tally-turn_of (suc i) stop (w ∷ ws) tasks = omega (arith, tally-turn_of i stop ws tasks)

  held-awake : (w : Worker A) → held (awake w) ≡ held w
  unfolding held awake
  held-awake waiting = refl
  held-awake sleeping = refl
  held-awake exited = refl
  held-awake (running x) = refl

  held_by-notify_one : (i : ℕ) (ws : List (Worker A)) → held_by (notify_one i ws) ≡ held_by ws
  unfolding held_by notify_one
  held_by-notify_one i [] = refl
  held_by-notify_one zero (w ∷ ws) = omega (arith, held-awake w)
  held_by-notify_one (suc i) (w ∷ ws) = omega (arith, held_by-notify_one i ws)

  held_by-notify_all : (ws : List (Worker A)) → held_by (notify_all ws) ≡ held_by ws
  unfolding held_by notify_all
  held_by-notify_all [] = refl
  held_by-notify_all (w ∷ ws) = omega (arith, held-awake w, held_by-notify_all ws)

  -- The accepted tasks are those that are finished, run or queued.
  abbrev pub IsConserved : History A → Type 0
  IsConserved h = tally h.accepted ≡ tally h.finished + held_by h.pool.workers + tally h.pool.tasks

  step-IsConserved : (event : Event A) (h : History A) → IsConserved h → IsConserved (step event h)
  unfolding step enqueue shut_down tally
  step-IsConserved (submit x) h ih =
      ground (arith, ih, tally-append h.accepted (x ∷ []), tally-append h.pool.tasks (x ∷ []))
  step-IsConserved (turn i) h ih = omega (
    arith,
    ih,
    tally-turn_of i h.pool.stop h.pool.workers h.pool.tasks,
    tally-append h.finished (turn_of i h.pool.stop h.pool.workers h.pool.tasks).1,
  )
  step-IsConserved destroy h ih = ih
  step-IsConserved (wake i) h ih = omega (arith, ih, held_by-notify_one i h.pool.workers)
  step-IsConserved wake_all h ih = omega (arith, ih, held_by-notify_all h.pool.workers)

  run-IsConserved_from :
      (events : List (Event A)) (h : History A) → IsConserved h → IsConserved (run events h)
  unfolding run
  run-IsConserved_from [] h ih = ih
  run-IsConserved_from (event ∷ events) h ih =
      run-IsConserved_from events (step event h) (step-IsConserved event h ih)

  held_by-idle_workers : (n : ℕ) → held_by (idle_workers n) ≡ 0
  unfolding held_by idle_workers held
  held_by-idle_workers zero = refl
  held_by-idle_workers (suc n) = omega (arith, held_by-idle_workers n)

  -- In every order of events, and whatever is counted among the tasks, the accepted ones are
  -- the finished, the running and the queued ones together.
  pub run-IsConserved :
      (threads : ℕ) (events : List (Event A)) → IsConserved (run events (begin threads))
  unfolding begin start tally
  run-IsConserved threads events =
      run-IsConserved_from events (begin threads) (omega (arith, held_by-idle_workers threads))
