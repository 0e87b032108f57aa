-- ===== src/Util/ConcurrentQueue.antt =====
-- util/concurrency/concurrent_queue.hpp. Each operation holds the lock from its first step to its
-- last; a thread that finds nothing in `wait_and_pop` waits and tries again when it wakes.
pub mod Order
use aevum.Prelude.{ℕ, Bool, true, false, [], ◌∷◌, ◌++◌, List, Option, none, some, length, is_empty}

pub record ConcurrentQueue (T : Type 0) : Type 0 where
  pub queue : List T

module _ (T : Type 0) where
  unfoldable pub push : T → ConcurrentQueue T → ConcurrentQueue T
  push value q = record { queue = q.queue ++ value ∷ [] }

  pop_front : List T → Option T × ConcurrentQueue T
  pop_front [] = (none, record { queue = [] })
  pop_front (value ∷ rest) = (some value, record { queue = rest })

  unfoldable pub try_pop : ConcurrentQueue T → Option T × ConcurrentQueue T
  unfolding pop_front
  try_pop q = pop_front q.queue

  -- One turn of `wait_and_pop`: `none` is a thread that goes on waiting.
  unfoldable pub wait_and_pop : ConcurrentQueue T → Option T × ConcurrentQueue T
  unfolding pop_front
  wait_and_pop q = pop_front q.queue

  unfoldable pub empty : ConcurrentQueue T → Bool
  empty q = is_empty q.queue

  unfoldable pub size : ConcurrentQueue T → ℕ
  size q = length q.queue

  unfoldable pub clear : ConcurrentQueue T → ConcurrentQueue T
  clear q = record { queue = [] }

  -- What threads do with a queue, in the order in which they hold the lock. A turn of
  -- `wait_and_pop` has the number of its thread.
  pub data Event : Type 0 where
    pushes : T → Event
    tries : Event
    waits : ℕ → Event
    clears : Event

  -- The queue, with what was pushed, what was handed out and what was thrown away, each in order.
  pub record History : Type 0 where
    pub state : ConcurrentQueue T
    pub pushed : List T
    pub popped : List T
    pub dropped : List T

  abbrev pub handed : Option T → List T → List T
  handed none out = out
  handed (some value) out = out ++ value ∷ []

  unfoldable pub step : Event → History → History
  unfolding push try_pop wait_and_pop clear
  step (pushes value) h = record h { state = push value h.state; pushed = h.pushed ++ value ∷ [] }
  step tries h =
      let (value, q) = try_pop h.state in record h { state = q; popped = handed value h.popped }
  step (waits thread) h =
      let (value, q) = wait_and_pop h.state in
      record h { state = q; popped = handed value h.popped }
  step clears h = record h { state = clear h.state; dropped = h.dropped ++ h.state.queue }

  unfoldable pub run : List Event → History → History
  unfolding step
  run [] h = h
  run (event ∷ events) h = run events (step event h)
