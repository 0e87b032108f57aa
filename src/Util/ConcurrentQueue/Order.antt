-- ===== src/Util/ConcurrentQueue/Order.antt =====
-- First in, first out.
use mathlib.Core.List.{append_assoc}
use aevum.Prelude.{◌≡◌, ap, sym, ◌∙◌, [], ◌∷◌, ◌++◌, List}
use aevum.Util.ConcurrentQueue.{
  pop_front, Event, pushes, tries, waits, clears, History, handed, step, run,
}

module _ (T : Type 0) where
  -- Events in which no thread clears the queue.
  abbrev pub NoClear : List (Event T) → Type 0
  NoClear [] = Unit {0}
  NoClear (clears ∷ es) = ⊥
  NoClear (e ∷ es) = NoClear es

  abbrev pub InOrder : History T → Type 0
  InOrder h = h.popped ++ h.state.queue ≡ h.pushed

  popped-InOrder :
      (queue popped pushed : List T)
      → popped ++ queue ≡ pushed
      → handed T (pop_front T queue).0 popped ++ (pop_front T queue).1.queue ≡ pushed
  unfolding pop_front
  popped-InOrder [] popped pushed h = h
  popped-InOrder (v ∷ vs) popped pushed h = append_assoc popped (v ∷ []) vs ∙ h

  push-InOrder : (h : History T) (value : T) → InOrder h → InOrder (step T (pushes value) h)
  unfolding step
  push-InOrder h value ordered =
      sym (append_assoc h.popped h.state.queue (value ∷ [])) ∙ ap (λ l. l ++ value ∷ []) ordered

  -- However pushing, trying and waiting threads take turns, where none clears the queue: what was
  -- handed out, followed by what is in the queue, is what was pushed, in the order of the pushes.
  pub run-InOrder :
      (events : List (Event T)) (h : History T)
      → NoClear events
      → InOrder h
      → InOrder (run T events h)
  unfolding run
  run-InOrder [] h quiet ordered = ordered
  run-InOrder (pushes value ∷ es) h quiet ordered =
      run-InOrder es (step T (pushes value) h) quiet (push-InOrder h value ordered)
  run-InOrder (tries ∷ es) h quiet ordered =
      run-InOrder es (step T tries h) quiet
        (unfold step in popped-InOrder h.state.queue h.popped h.pushed ordered)
  run-InOrder (waits thread ∷ es) h quiet ordered =
      run-InOrder es (step T (waits thread) h) quiet
        (unfold step in popped-InOrder h.state.queue h.popped h.pushed ordered)
  run-InOrder (clears ∷ es) h quiet ordered = absurd quiet
