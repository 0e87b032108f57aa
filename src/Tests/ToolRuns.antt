-- ===== src/Tests/ToolRuns.antt =====
-- The theorems of the text helpers and the thread pool at concrete inputs.
use aevum.Prelude.{ℕ, ◌≡◌, refl, true, false, [], ◌∷◌, List, Str, length, leb, arith}
use aevum.Shell.Braces.{Balanced, nothing, byte, block}
use aevum.Util.Pool.{
  waiting, sleeping, running, destructor, all_exited, Event, submit, turn, destroy, History, step,
  run, begin,
}
use aevum.Util.Pool.Conservation.{tally}
use aevum.Util.Pool.Shutdown.{tally-all_exited}
use aevum.Util.Pool.Turns.{turns_left}
use aevum.Util.Pool.Drain.{rounds, all_exited-destructor}

-- Two tasks, the destructor in between, and two workers that take turns until both return.
abbrev events : List (Event ℕ)
events = submit 7 ∷ turn 0 ∷ submit 8 ∷ destroy ∷ turn 1 ∷ turn 0 ∷ turn 0 ∷ turn 1 ∷ turn 1 ∷ []

tally-all_exited_example :
    tally (λ x. leb x 7) (run events (begin 2)).finished
    ≡ tally (λ x. leb x 7) (run events (begin 2)).accepted
unfolding run step begin all_exited
tally-all_exited_example = tally-all_exited (λ x. leb x 7) 1 events refl

-- One worker runs a task and another sleeps; a third takes its turn during the destructor.
abbrev busy_pool : History ℕ
busy_pool = record {
  pool = record { tasks = 9 ∷ []; stop = false; workers = running 8 ∷ sleeping ∷ waiting ∷ [] };
  accepted = 8 ∷ 9 ∷ [];
  finished = [];
}

all_exited-destructor_example :
    let stopped = run (destructor (turn 2 ∷ [])) busy_pool in
    all_exited
      (run (rounds (turns_left stopped.pool) (length stopped.pool.workers)) stopped).pool.workers
    ≡ true
all_exited-destructor_example = all_exited-destructor busy_pool (turn 2 ∷ [])

-- What stands between the braces of an object.
abbrev nested : Str
nested = b'a' ∷ b'{' ∷ b'}' ∷ []

nested-Balanced : Balanced b'{' b'}' nested
nested-Balanced =
    byte b'a' (b'{' ∷ b'}' ∷ []) (omega arith) (omega arith) (block [] [] nothing nothing)
