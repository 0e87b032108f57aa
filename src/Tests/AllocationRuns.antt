-- ===== src/Tests/AllocationRuns.antt =====
-- The theorems of the arena and of the pool of objects at concrete runs.
use aevum.Prelude.{◌≡◌, ◌≤◌, refl, true, false, [], ◌∷◌, List, none, some, arith}
use aevum.Util.Arena.{ArenaAllocator, Block, Request, allocate, allocate_all}
use aevum.Util.Arena.Blocks.{AreApart, IsValid, allocate_all-AreApart}
use aevum.Util.Arena.Exhausted.{allocate-allocate_unowned}
use aevum.Util.ObjectPool.{Event, acquires, releases, Usage, run}
use aevum.Util.ObjectPool.Sharing.{places, run-places}

-- The second chunk of an arena with two of them, half used.
abbrev half_used : ArenaAllocator
half_used = record { chunk_size = 64; chunks = 2; current_chunk_idx = 1; current_offset = 33 }

half_used-IsValid : IsValid half_used
half_used-IsValid = record { indexed = omega arith; within = omega arith }

abbrev large : Request
large = record { bytes = 40; alignment = 8; granted = true }

abbrev small : Request
small = record { bytes = 8; alignment = 4; granted = true }

abbrev requests : List Request
requests = small ∷ large ∷ small ∷ []

allocate_all-AreApart_example : AreApart (allocate_all requests half_used).0
allocate_all-AreApart_example = allocate_all-AreApart requests half_used half_used-IsValid (
  (omega arith, omega arith),
  refl,
  ((omega arith, omega arith), refl, ((omega arith, omega arith), refl, tt)),
)

allocate-allocate_unowned_example :
    let (block, a') = allocate 40 8 false half_used in
    (block ≡ none)
    × (block' : Block) × ((allocate 8 4 true a').0 ≡ some block')
    × (block'.chunk ≡ a'.chunks)
unfolding aevum.Util.Arena.padding
allocate-allocate_unowned_example =
    allocate-allocate_unowned half_used large small true half_used-IsValid (omega arith) refl
      (omega arith) (omega arith)

abbrev pool_events : List Event
pool_events = acquires 1 ∷ acquires 2 ∷ releases 1 ∷ acquires 3 ∷ []

abbrev unused : Usage
unused = record { state = record { pool = [] }; held = [] }

run-places_example : places 1 (run pool_events unused) ≤ 1
unfolding aevum.Util.ObjectPool.step
run-places_example = run-places pool_events unused 1 (omega arith) (λ x. omega arith)
