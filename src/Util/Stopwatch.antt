-- ===== src/Util/Stopwatch.antt =====
-- util/time/stopwatch.cpp. The readings of the steady clock, in nanoseconds, are arguments; the sums
-- stay below 2^63. The two readings as `double` are not modelled.
pub mod Measure
use aevum.Prelude.{ℕ, ◌+◌, ◌-◌, Bool, true, false, not, [], ◌∷◌, List, if◌then◌else◌}

pub record Stopwatch : Type 0 where
  pub start_time : ℕ
  pub accumulated_duration : ℕ
  pub running : Bool

unfoldable pub start : ℕ → Stopwatch → Stopwatch
start now w = if not w.running then record w { start_time = now; running = true } else w

unfoldable pub stop : ℕ → Stopwatch → Stopwatch
stop now w =
    if w.running
    then record w {
      accumulated_duration = w.accumulated_duration + (now - w.start_time);
      running = false;
    }
    else w

unfoldable pub reset : Stopwatch → Stopwatch
reset w = record w { running = false; accumulated_duration = 0 }

-- The constructor
unfoldable pub begin : ℕ → Stopwatch
unfolding start
begin now = start now (record { start_time = 0; accumulated_duration = 0; running = false })

unfoldable pub elapsed_ns : ℕ → Stopwatch → ℕ
elapsed_ns now w =
    if w.running then w.accumulated_duration + (now - w.start_time) else w.accumulated_duration

pub data Event : Type 0 where
  starts stops resets : ℕ → Event

unfoldable pub step : Event → Stopwatch → Stopwatch
unfolding start stop reset
step (starts now) w = start now w
step (stops now) w = stop now w
step (resets now) w = reset w

unfoldable pub run : List Event → Stopwatch → Stopwatch
unfolding step
run [] w = w
run (event ∷ events) w = run events (step event w)
