-- ===== src/Util/Stopwatch/Measure.antt =====
-- A stopwatch against a meter that counts every stretch of time in which it runs.
use aevum.Prelude.{
  ℕ, ◌+◌, ◌-◌, ◌≡◌, ◌≤◌, Bool, true, false, [], ◌∷◌, List, if◌then◌else◌, arith, refl,
}
use aevum.Util.Stopwatch.{
  Stopwatch, start, begin, elapsed_ns, Event, starts, stops, resets, step, run,
}

-- The meter: the time it was last looked at, whether it runs, and the time in which it ran.
pub record Meter : Type 0 where
  pub last : ℕ
  pub runs : Bool
  pub total : ℕ

abbrev pub pass : ℕ → Meter → ℕ
pass now m = if m.runs then m.total + (now - m.last) else m.total

abbrev pub observe : Event → Meter → Meter
observe (starts now) m = record { last = now; runs = true; total = pass now m }
observe (stops now) m = record { last = now; runs = false; total = pass now m }
observe (resets now) m = record { last = now; runs = false; total = 0 }

abbrev pub observe_all : List Event → Meter → Meter
observe_all [] m = m
observe_all (event ∷ events) m = observe_all events (observe event m)

abbrev pub time_of : Event → ℕ
time_of (starts now) = now
time_of (stops now) = now
time_of (resets now) = now

-- The clock does not go back, up to the reading at the end.
abbrev pub IsSteady : ℕ → List Event → ℕ → Type 0
IsSteady last [] now = last ≤ now
IsSteady last (event ∷ events) now = (last ≤ time_of event) × IsSteady (time_of event) events now

abbrev Agrees : Meter → Stopwatch → Type 0
Agrees m w =
    (m.runs ≡ w.running)
    × (w.start_time ≤ m.last)
    × (m.total ≡ (
        if w.running
        then w.accumulated_duration + (m.last - w.start_time)
        else w.accumulated_duration))

step-Agrees :
    (event : Event) (m : Meter) (w : Stopwatch)
    → m.last ≤ time_of event
    → Agrees m w
    → Agrees (observe event m) (step event w)
unfolding step
step-Agrees (starts now) m w later h = ground (arith, later, h)
step-Agrees (stops now) m w later h = ground (arith, later, h)
step-Agrees (resets now) m w later h = ground (arith, later, h)

last-observe : (event : Event) (m : Meter) → (observe event m).last ≡ time_of event
last-observe (starts now) m = refl
last-observe (stops now) m = refl
last-observe (resets now) m = refl

run-Agrees :
    (events : List Event) (now : ℕ) (m : Meter) (w : Stopwatch)
    → IsSteady m.last events now
    → Agrees m w
    → elapsed_ns now (run events w) ≡ pass now (observe_all events m)
unfolding run elapsed_ns
run-Agrees [] now m w steady h = ground (arith, steady, h)
run-Agrees (starts t ∷ es) now m w steady h =
    run-Agrees es now (observe (starts t) m) (step (starts t) w) steady.1
      (step-Agrees (starts t) m w steady.0 h)
run-Agrees (stops t ∷ es) now m w steady h =
    run-Agrees es now (observe (stops t) m) (step (stops t) w) steady.1
      (step-Agrees (stops t) m w steady.0 h)
run-Agrees (resets t ∷ es) now m w steady h =
    run-Agrees es now (observe (resets t) m) (step (resets t) w) steady.1
      (step-Agrees (resets t) m w steady.0 h)

-- However a stopwatch is started, stopped and reset, where the clock does not go back, its reading
-- is the time since the last reset in which it ran, counted stretch by stretch from its
-- construction on.
pub elapsed_ns-run :
    (created : ℕ) (events : List Event) (now : ℕ)
    → IsSteady created events now
    → elapsed_ns now (run events (begin created))
      ≡ pass now (observe_all events (record { last = created; runs = true; total = 0 }))
unfolding begin start
elapsed_ns-run created events now steady =
    run-Agrees events now (record { last = created; runs = true; total = 0 }) (begin created) steady
      (refl, omega arith, omega arith)
