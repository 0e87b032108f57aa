-- ===== src/Tests/SpecRuns.antt =====
-- The refinement of the abstract database at an engine over tables in memory.
use aevum.Prelude.{[], ◌∷◌, List}
use aevum.Core.Spec.{Op, insert_op, remove_op, update_op, AllowedRun, view, perform_all}
use aevum.Core.Spec.Refines.{perform_all-AllowedRun}
use aevum.Tests.Memory.{memory, memory_laws}
use aevum.Tests.Disk.{disk}
use aevum.Tests.CoreRuns.{users, doc_a, doc_a-HasCleanId, answers, new_core, new_core-IsKeyed}

abbrev some_ops : List (Op memory)
some_ops = insert_op 1 2 users doc_a ∷ update_op users [] [] ∷ remove_op users [] ∷ []

perform_all-AllowedRun_example :
    AllowedRun memory
      (view memory disk new_core)
      some_ops
      (perform_all memory disk answers some_ops new_core).0
      (view memory disk (perform_all memory disk answers some_ops new_core).1)
perform_all-AllowedRun_example =
    perform_all-AllowedRun memory disk answers memory_laws some_ops new_core
      (doc_a-HasCleanId, (tt, (tt, tt))) new_core-IsKeyed
