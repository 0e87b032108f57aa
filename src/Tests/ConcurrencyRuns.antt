-- ===== src/Tests/ConcurrencyRuns.antt =====
-- The theorems of the queue, the wait group, the spinlock and the stopwatch at concrete runs.
use aevum.Prelude.{ℕ, refl, false, [], ◌∷◌, List}
use aevum.Util.ConcurrentQueue.{Event, History, pushes, tries, waits, run}
use aevum.Util.ConcurrentQueue.Order.{InOrder, run-InOrder}
use aevum.Util.Spinlock
use aevum.Util.Spinlock.Exclusion.{IsExclusive, run-IsExclusive}

abbrev queue_events : List (Event ℕ)
queue_events = pushes 1 ∷ waits 0 ∷ pushes 2 ∷ tries ∷ tries ∷ waits 1 ∷ pushes 3 ∷ []

abbrev new_queue : History ℕ
new_queue = record { state = record { queue = [] }; pushed = []; popped = []; dropped = [] }

run-InOrder_example : InOrder ℕ (run ℕ queue_events new_queue)
run-InOrder_example = run-InOrder ℕ queue_events new_queue tt refl

abbrev lock_events : List Spinlock.Event
lock_events = Spinlock.tries 1 ∷ Spinlock.tries 2 ∷ Spinlock.releases 1 ∷ Spinlock.tries 2 ∷ []

abbrev free_lock : Spinlock.Holding
free_lock = record { spinlock = record { flag = false }; holders = [] }

run-IsExclusive_example : IsExclusive (Spinlock.run lock_events free_lock)
unfolding Spinlock.step
run-IsExclusive_example = run-IsExclusive lock_events free_lock (refl, tt) refl
