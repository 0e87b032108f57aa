-- ===== src/Core/Spec/Refines.antt =====
-- The engine implements the abstract database.
use aevum.Prelude.{[], ◌∷◌, List}
use aevum.Bson.{Bson, BsonLaws}
use aevum.Ffi.{Ffi}
use aevum.Storage.{Engine}
use aevum.Core.{Core}
use aevum.Core.Mirror.{IsKeyed}
use aevum.Core.Mirror.Insert.{insert-IsKeyed}
use aevum.Core.Spec.{
  Op, insert_op, remove_op, update_op, Allowed, AllowedRun, done, next, IsCleanOp, AreCleanOps,
  view, perform, perform_all,
}
use aevum.Core.Spec.Insert.{insert-Allowed}
use aevum.Core.Spec.Remove.{remove-Allowed}
use aevum.Core.Spec.Update.{update-Allowed}

module _ (b : Bson) (e : Engine) (ffi : Ffi) (blaws : BsonLaws b) where
  perform-Allowed :
      (op : Op b) (core : Core b e)
      → IsCleanOp b op
      → IsKeyed b core.index_manager
      → let (r, core') = perform b e ffi op core in
        Allowed b (view b e core) (view b e core') op r × IsKeyed b core'.index_manager
  unfolding perform
  perform-Allowed (insert_op p q coll doc) core clean k = (
    insert-Allowed b e ffi blaws p q coll doc core clean,
    insert-IsKeyed b e ffi p q coll doc core k,
  )
  perform-Allowed (remove_op coll query) core clean k = remove-Allowed b e ffi coll query core k
  perform-Allowed (update_op coll query change) core clean k =
      update-Allowed b e coll query change ffi core k

  -- Every sequence of inserts, removals and updates that starts from indexes in which documents
  -- stand under their ids refines the abstract database, where no document to insert has an empty
  -- text id or one with a NUL: seen by id, each operation that reports an error changes nothing, an
  -- insert puts just its document under the id that it reports, a removal erases exactly as many
  -- documents as it counts, all from its collection, and an update replaces the documents of its
  -- collection alone.
  pub perform_all-AllowedRun :
      (ops : List (Op b)) (core : Core b e)
      → AreCleanOps b ops
      → IsKeyed b core.index_manager
      → let (reports, last) = perform_all b e ffi ops core in
        AllowedRun b (view b e core) ops reports (view b e last)
  unfolding perform_all
  perform_all-AllowedRun [] core clean k = done
  perform_all-AllowedRun (op ∷ ops) core clean k =
      let (allowed, k') = perform-Allowed op core clean.0 k in
      next op ops _ _ allowed (perform_all-AllowedRun ops (perform b e ffi op core).1 clean.1 k')
