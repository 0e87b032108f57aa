-- ===== src/Util/Spinlock.antt =====
-- util/concurrency/spinlock.cpp. One `test_and_set` or `clear` is one step of a thread; the fences are
-- left out, since the steps are those of one memory.
pub mod Exclusion
use aevum.Prelude.{
  ℕ, suc, ◌+◌, ◌≡◌, Bool, true, false, not, ◌||◌, [], ◌∷◌, List, Option, none, some, keep,
  if◌then◌else◌, ◌==◌,
}

pub record Spinlock : Type 0 where
  pub flag : Bool

-- flag_.test_and_set: the value before, and the flag set.
unfoldable pub test_and_set : Spinlock → Bool × Spinlock
test_and_set s = (s.flag, record { flag = true })

-- One round of the loop of `lock`, and all of `try_lock`: whether the lock was acquired.
unfoldable pub try_lock : Spinlock → Bool × Spinlock
unfolding test_and_set
try_lock s = let (before, s') = test_and_set s in (not before, s')

unfoldable pub unlock : Spinlock → Spinlock
unlock s = record { flag = false }

-- The rounds of `lock`, in each of which other threads may have left the flag set or clear: how
-- many rounds it spins, if it gets out of the loop.
unfoldable pub lock : List Spinlock → Option ℕ
unfolding try_lock
lock [] = none
lock (s ∷ seen) =
    let spun = lock seen in
    let (acquired, s') = try_lock s in
    if acquired then some 0 else elim spun [ none ↦ none | some n ↦ some (suc n) ]

-- The lock with the threads that hold it: those that acquired and did not release it.
pub record Holding : Type 0 where
  pub spinlock : Spinlock
  pub holders : List ℕ

-- A thread makes a round of `lock` or a `try_lock`, or releases the lock.
pub data Event : Type 0 where
  tries releases : ℕ → Event

unfoldable pub step : Event → Holding → Holding
unfolding try_lock unlock
step (tries thread) h =
    let (acquired, s) = try_lock h.spinlock in
    record { spinlock = s; holders = if acquired then thread ∷ h.holders else h.holders }
step (releases thread) h = record {
  spinlock = unlock h.spinlock;
  holders = keep (λ t. not (t == thread)) h.holders;
}

unfoldable pub run : List Event → Holding → Holding
unfolding step
run [] h = h
run (event ∷ events) h = run events (step event h)
