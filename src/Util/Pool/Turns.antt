-- ===== src/Util/Pool/Turns.antt =====
-- What a turn does to a stopped pool.
use aevum.Prelude.{
  ℕ, zero, suc, ◌+◌, ◌*◌, ◌≡◌, refl, Bool, true, false, [], ◌∷◌, List, arith, length,
}
use aevum.Util.Pool.{
  Worker, waiting, sleeping, exited, running, awake, ThreadPool, take_task, worker_turn, turn_of,
  notify_all, History,
}

module _ {A : Type 0} where
  -- The turns a worker still needs for itself.
  unfoldable pub weight : Worker A → ℕ
  weight exited = 0
  weight waiting = 1
  weight sleeping = 1
  weight (running x) = 2

  unfoldable pub weights : List (Worker A) → ℕ
  unfolding weight
  weights [] = 0
  weights (w ∷ ws) = weight w + weights ws

  -- The turns that a stopped pool needs in all: two for each task in the queue.
  unfoldable pub turns_left : ThreadPool A → ℕ
  unfolding weights
  turns_left pool = weights pool.workers + 2 * length pool.tasks

  unfoldable pub any_sleeping : List (Worker A) → Bool
  any_sleeping [] = false
  any_sleeping (sleeping ∷ ws) = true
  any_sleeping (w ∷ ws) = any_sleeping ws

  -- The destructor has stopped the pool and notified the workers.
  abbrev pub IsStopping : History A → Type 0
  IsStopping h = (h.pool.stop ≡ true) × (any_sleeping h.pool.workers ≡ false)

  -- Whether the worker has returned, where there is one.
  unfoldable pub exited_at : ℕ → List (Worker A) → Bool
  exited_at i [] = true
  exited_at zero (exited ∷ ws) = true
  exited_at zero (w ∷ ws) = false
  exited_at (suc i) (w ∷ ws) = exited_at i ws

  pub turn_of-exited :
      (i : ℕ) (stop : Bool) (ws : List (Worker A)) (tasks : List A)
      → exited_at i ws ≡ true
      → turn_of i stop ws tasks ≡ ((ws, tasks), [])
  unfolding turn_of worker_turn exited_at
  turn_of-exited zero stop [] tasks h = refl
  turn_of-exited (suc i) stop [] tasks h = refl
  turn_of-exited zero stop (exited ∷ ws) tasks h = refl
  turn_of-exited zero stop (waiting ∷ ws) tasks h = absurd cc
  turn_of-exited zero stop (sleeping ∷ ws) tasks h = absurd cc
  turn_of-exited zero stop (running x ∷ ws) tasks h = absurd cc
  turn_of-exited (suc i) stop (w ∷ ws) tasks h = rw (turn_of-exited i stop ws tasks h) refl

  pub turn_of-works :
      (i : ℕ) (ws : List (Worker A)) (tasks : List A)
      → any_sleeping ws ≡ false
      → exited_at i ws ≡ false
      → weights (turn_of i true ws tasks).0.0 + 2 * length (turn_of i true ws tasks).0.1 + 1
        ≡ weights ws + 2 * length tasks
  unfolding turn_of worker_turn take_task exited_at weights weight any_sleeping
  turn_of-works zero [] tasks up h = absurd cc
  turn_of-works (suc i) [] tasks up h = absurd cc
  turn_of-works zero (exited ∷ ws) tasks up h = absurd cc
  turn_of-works zero (sleeping ∷ ws) tasks up h = absurd cc
  turn_of-works zero (waiting ∷ ws) [] up h = omega arith
  turn_of-works zero (waiting ∷ ws) (x ∷ tasks) up h = omega arith
  turn_of-works zero (running x ∷ ws) tasks up h = omega arith
  turn_of-works (suc i) (sleeping ∷ ws) tasks up h = absurd cc
  turn_of-works (suc i) (waiting ∷ ws) tasks up h = omega (arith, turn_of-works i ws tasks up h)
  turn_of-works (suc i) (exited ∷ ws) tasks up h = omega (arith, turn_of-works i ws tasks up h)
  turn_of-works (suc i) (running x ∷ ws) tasks up h = omega (arith, turn_of-works i ws tasks up h)

  -- No worker of a stopped pool goes to sleep.
  pub turn_of-sleeping :
      (i : ℕ) (ws : List (Worker A)) (tasks : List A)
      → any_sleeping ws ≡ false
      → any_sleeping (turn_of i true ws tasks).0.0 ≡ false
  unfolding turn_of worker_turn take_task any_sleeping
  turn_of-sleeping zero [] tasks up = refl
  turn_of-sleeping (suc i) [] tasks up = refl
  turn_of-sleeping zero (waiting ∷ ws) [] up = up
  turn_of-sleeping zero (waiting ∷ ws) (x ∷ tasks) up = up
  turn_of-sleeping zero (sleeping ∷ ws) tasks up = absurd cc
  turn_of-sleeping zero (exited ∷ ws) tasks up = up
  turn_of-sleeping zero (running x ∷ ws) tasks up = up
  turn_of-sleeping (suc i) (waiting ∷ ws) tasks up = turn_of-sleeping i ws tasks up
  turn_of-sleeping (suc i) (sleeping ∷ ws) tasks up = absurd cc
  turn_of-sleeping (suc i) (exited ∷ ws) tasks up = turn_of-sleeping i ws tasks up
  turn_of-sleeping (suc i) (running x ∷ ws) tasks up = turn_of-sleeping i ws tasks up

  pub any_sleeping-notify_all : (ws : List (Worker A)) → any_sleeping (notify_all ws) ≡ false
  unfolding any_sleeping notify_all awake
  any_sleeping-notify_all [] = refl
  any_sleeping-notify_all (waiting ∷ ws) = any_sleeping-notify_all ws
  any_sleeping-notify_all (sleeping ∷ ws) = any_sleeping-notify_all ws
  any_sleeping-notify_all (exited ∷ ws) = any_sleeping-notify_all ws
  any_sleeping-notify_all (running x ∷ ws) = any_sleeping-notify_all ws
