-- ===== src/Tests/OwnershipRuns.antt =====
-- The ownership of documents in a run of three documents.
use aevum.Prelude.{refl, false, [], ◌∷◌, List, none, arith}
use aevum.Bson.Ownership.{Memory, construct, copy_construct, move_construct, copy_assign, release}
use aevum.Bson.Ownership.Balance.{Holds}
use aevum.Bson.Ownership.Runs.{
  Event, constructs, copies, moves, copy_assigns, releases, destructs, run, AreAllowed, run-Holds,
}

abbrev three_empty : Memory
three_empty = record {
  documents = none ∷ none ∷ none ∷ [];
  outside = [];
  live = λ h. false;
  fresh = 0;
  faulty = false;
}

abbrev events : List Event
events = constructs 0 ∷ copies 1 0 ∷ moves 2 0 ∷ copy_assigns 1 2 ∷ releases 2 ∷ destructs 1 ∷ []

three_empty-Holds : Holds none three_empty
three_empty-Holds = record { one = λ h. refl; below = λ h l. refl; sound = refl }

events-AreAllowed : AreAllowed events three_empty
unfolding aevum.Bson.Ownership.Runs.step construct copy_construct move_construct copy_assign release
events-AreAllowed = (
  (omega arith, refl),
  (
    (omega arith, (refl, (0, refl))),
    (
      (omega arith, (omega arith, (refl, refl))),
      ((omega arith, (0, refl)), (omega arith, (omega arith, tt))),
    ),
  ),
)

run-Holds_example : Holds none (run events three_empty)
run-Holds_example = run-Holds events three_empty events-AreAllowed three_empty-Holds
