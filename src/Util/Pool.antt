-- ===== src/Util/Pool.antt =====
-- util/concurrency/thread_pool.hpp and thread_pool.cpp: the workers and their queue. A thread takes
-- turns with the others: what it does while it holds the lock of the queue is one turn, and running
-- a task is one turn. A worker that found nothing sleeps on the condition variable, and a turn of a
-- sleeping worker does nothing: only a notification, or a spurious wake-up, lets it go on. A task
-- hands an exception to its future, so that running it always returns.
pub mod Conservation
pub mod Shutdown
pub mod Turns
pub mod Drain
use aevum.Prelude.{
  ℕ, zero, suc, ◌≡◌, Bool, true, false, ◌&&◌, [], ◌∷◌, ◌++◌, List, Option, none, some,
  if◌then◌else◌,
}

-- A worker waits for the lock, sleeps on the condition, runs a task, or has returned.
pub data Worker (A : Type 0) : Type 0 where
  waiting sleeping exited : Worker A
  running : A → Worker A

pub record ThreadPool (A : Type 0) : Type 0 where
  pub tasks : List A
  pub stop : Bool
  pub workers : List (Worker A)

module _ {A : Type 0} where
  -- `none` is the exception.
  unfoldable pub enqueue : A → ThreadPool A → Option (ThreadPool A)
  enqueue task pool =
      if pool.stop then none else some (record pool { tasks = pool.tasks ++ task ∷ [] })

  -- The critical section of the loop: the worker that finds neither a task nor the stop goes to
  -- sleep.
  unfoldable pub take_task : Bool → List A → Worker A × List A
  take_task false [] = (sleeping, [])
  take_task true [] = (exited, [])
  take_task stop (task ∷ rest) = (running task, rest)

  -- One turn of a worker: its state, the queue, and the tasks it finished.
  unfoldable pub worker_turn : Bool → Worker A → List A → (Worker A × List A) × List A
  unfolding take_task
  worker_turn stop waiting tasks = (take_task stop tasks, [])
  worker_turn stop (running task) tasks = ((waiting, tasks), task ∷ [])
  worker_turn stop sleeping tasks = ((sleeping, tasks), [])
  worker_turn stop exited tasks = ((exited, tasks), [])

  unfoldable pub awake : Worker A → Worker A
  awake sleeping = waiting
  awake w = w

  -- condition_.notify_one(), or a spurious wake-up: the operating system picks the worker.
  unfoldable pub notify_one : ℕ → List (Worker A) → List (Worker A)
  unfolding awake
  notify_one i [] = []
  notify_one zero (w ∷ ws) = awake w ∷ ws
  notify_one (suc i) (w ∷ ws) = w ∷ notify_one i ws

  -- condition_.notify_all()
  unfoldable pub notify_all : List (Worker A) → List (Worker A)
  unfolding awake
  notify_all [] = []
  notify_all (w ∷ ws) = awake w ∷ notify_all ws

  unfoldable pub turn_of : ℕ → Bool → List (Worker A) → List A → (List (Worker A) × List A) × List A
  unfolding worker_turn
  turn_of i stop [] tasks = (([], tasks), [])
  turn_of zero stop (w ∷ ws) tasks =
      let ((w', tasks'), done) = worker_turn stop w tasks in ((w' ∷ ws, tasks'), done)
  turn_of (suc i) stop (w ∷ ws) tasks =
      let ((ws', tasks'), done) = turn_of i stop ws tasks in ((w ∷ ws', tasks'), done)

  -- The destructor's critical section.
  unfoldable pub shut_down : ThreadPool A → ThreadPool A
  shut_down pool = record pool { stop = true }

  unfoldable pub all_exited : List (Worker A) → Bool
  all_exited [] = true
  all_exited (exited ∷ ws) = all_exited ws
  all_exited (w ∷ ws) = false

  unfoldable pub idle_workers : ℕ → List (Worker A)
  idle_workers zero = []
  idle_workers (suc n) = waiting ∷ idle_workers n

  -- The constructor.
  unfoldable pub start : ℕ → ThreadPool A
  unfolding idle_workers
  start threads = record { tasks = []; stop = false; workers = idle_workers threads }

-- What may come next: a caller's task, a turn of a worker, the destructor's critical section, or a
-- notification of one worker or of all.
pub data Event (A : Type 0) : Type 0 where
  submit : A → Event A
  turn : ℕ → Event A
  destroy : Event A
  wake : ℕ → Event A
  wake_all : Event A

-- The pool with the tasks that it accepted and those that it finished so far.
pub record History (A : Type 0) : Type 0 where
  pub pool : ThreadPool A
  pub accepted : List A
  pub finished : List A

module _ {A : Type 0} where
  unfoldable pub step : Event A → History A → History A
  unfolding enqueue turn_of shut_down notify_one notify_all
  step (submit task) h = elim (enqueue task h.pool) [
    | none ↦ h
    | some pool ↦ record h { pool = pool; accepted = h.accepted ++ task ∷ [] }
  ]
  step (turn i) h =
      let ((ws, tasks), done) = turn_of i h.pool.stop h.pool.workers h.pool.tasks in
      record h {
        pool = record (h.pool) { workers = ws; tasks = tasks };
        finished = h.finished ++ done;
      }
  step destroy h = record h { pool = shut_down h.pool }
  step (wake i) h = record h { pool = record (h.pool) { workers = notify_one i h.pool.workers } }
  step wake_all h = record h { pool = record (h.pool) { workers = notify_all h.pool.workers } }

  -- Any order of events.
  unfoldable pub run : List (Event A) → History A → History A
  unfolding step
  run [] h = h
  run (event ∷ events) h = run events (step event h)

  -- What the destructor does before it waits for the workers: the stop, what the other threads do
  -- in the meantime, and the notification.
  unfoldable pub destructor : List (Event A) → List (Event A)
  destructor meantime = destroy ∷ (meantime ++ wake_all ∷ [])

  unfoldable pub begin : ℕ → History A
  unfolding start
  begin threads = record { pool = start threads; accepted = []; finished = [] }
