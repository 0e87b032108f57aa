-- ===== src/Core/Spec.antt =====
-- The abstract view of db/core: a database as a map from collections and ids to documents, and what
-- an operation with its report may do to that map. No table, index, query text or lock is left in it.
pub mod Insert
pub mod Remove
pub mod Update
pub mod Refines
use aevum.Prelude.{
  ℕ, suc, ◌≡◌, Bool, true, false, ◌&&◌, [], ◌∷◌, List, Option, none, some, Str, ℤ, str_eq, length,
  if◌then◌else◌,
}
use aevum.Util.Status.{Status, is_ok}
use aevum.Util.Uuid.{generate_v4}
use aevum.Bson.{Bson}
use aevum.Ffi.{Ffi}
use aevum.Storage.{Engine}
use aevum.Index.Manager.{get_document_by_id}
use aevum.Index.Manager.Rebuild.{last_with_id}
use aevum.Core.{Core}
use aevum.Core.Write.{identify, insert, remove}
use aevum.Core.Batch.{update}
use aevum.Core.Mirror.{HasCleanId}

module _ (b : Bson) where
  abbrev pub Database : Type 0
  Database = Str → Str → Option b.Doc

  abbrev pub put : Str → Str → b.Doc → Database → Database
  put coll id doc db c i = if str_eq coll c && str_eq id i then some doc else db c i

  abbrev pub erase : Str → Str → Database → Database
  erase coll id db c i = if str_eq coll c && str_eq id i then none else db c i

  -- The collection holds the documents of the list, the last of each id.
  abbrev pub replace : Str → List b.Doc → Database → Database
  replace coll docs db c i = if str_eq coll c then last_with_id b i docs none else db c i

  -- The ids of the list name documents that go one after the other.
  pub data Erases (coll : Str) : Database → List Str → Database → Type 0 where
    finished : {db : Database} → Erases coll db [] db
    gone :
        {db last : Database} (id : Str) (ids : List Str) (doc : b.Doc)
        → db coll id ≡ some doc
        → Erases coll (erase coll id db) ids last
        → Erases coll db (id ∷ ids) last

  -- What a client asks for, with the random words that an insert may draw.
  pub data Op : Type 0 where
    insert_op : ℕ → ℕ → Str → b.Doc → Op
    remove_op : Str → Str → Op
    update_op : Str → Str → Str → Op

  -- What it is told.
  pub data Report : Type 0 where
    inserted : Status → Str → Report
    removed : Status → ℕ → Report
    updated : Status → ℤ → Report

  -- An operation that reports an error changes nothing; one that reports OK does what it reports:
  -- an insert puts the document under the reported id, a removal erases as many documents as it
  -- counts, and an update puts documents in place of those of the collection.
  pub data Allowed (db last : Database) : Op → Report → Type 0 where
    refused :
        (p q : ℕ) (coll : Str) (doc : b.Doc) (s : Status) (id : Str)
        → is_ok s ≡ false
        → last ≡ db
        → Allowed db last (insert_op p q coll doc) (inserted s id)
    stored :
        (p q : ℕ) (coll : Str) (doc : b.Doc) (s : Status) (id : Str)
        → is_ok s ≡ true
        → id ≡ (identify b (generate_v4 p q) doc).0
        → last ≡ put coll id (identify b (generate_v4 p q) doc).1 db
        → Allowed db last (insert_op p q coll doc) (inserted s id)
    unmatched :
        (coll query : Str) (s : Status) (n : ℕ)
        → is_ok s ≡ false
        → n ≡ 0
        → last ≡ db
        → Allowed db last (remove_op coll query) (removed s n)
    erased :
        (coll query : Str) (s : Status) (n : ℕ) (ids : List Str)
        → is_ok s ≡ true
        → n ≡ length ids
        → Erases coll db ids last
        → Allowed db last (remove_op coll query) (removed s n)
    unchanged :
        (coll query change : Str) (s : Status) (n : ℤ)
        → is_ok s ≡ false
        → last ≡ db
        → Allowed db last (update_op coll query change) (updated s n)
    replaced :
        (coll query change : Str) (s : Status) (n : ℤ) (docs : List b.Doc)
        → is_ok s ≡ true
        → last ≡ replace coll docs db
        → Allowed db last (update_op coll query change) (updated s n)

  -- A sequence of operations, each allowed from where the one before has led.
  pub data AllowedRun : Database → List Op → List Report → Database → Type 0 where
    done : {db : Database} → AllowedRun db [] [] db
    next :
        {db after last : Database} (op : Op) (ops : List Op) (r : Report) (rs : List Report)
        → Allowed db after op r
        → AllowedRun after ops rs last
        → AllowedRun db (op ∷ ops) (r ∷ rs) last

  -- An insert names no id that is empty or holds a NUL.
  abbrev pub IsCleanOp : Op → Type 0
  IsCleanOp (insert_op p q coll doc) = HasCleanId b doc
  IsCleanOp _ = Unit {0}

  abbrev pub AreCleanOps : List Op → Type 0
  AreCleanOps [] = Unit {0}
  AreCleanOps (op ∷ ops) = IsCleanOp op × AreCleanOps ops

module _ (b : Bson) (e : Engine) where
  -- The database that the engine holds, as it answers by id.
  abbrev pub view : Core b e → Database b
  view core c i = get_document_by_id b core.index_manager c i

module _ (b : Bson) (e : Engine) (ffi : Ffi) where
  unfoldable pub perform : Op b → Core b e → Report b × Core b e
  unfolding insert remove update
  perform (insert_op p q coll doc) core =
      let ((s, id), core') = insert b e ffi p q coll doc core in (inserted s id, core')
  perform (remove_op coll query) core =
      let ((s, n), core') = remove b e ffi coll query core in (removed s n, core')
  perform (update_op coll query change) core =
      let ((s, n), core') = update b e ffi coll query change core in (updated s n, core')

  unfoldable pub perform_all : List (Op b) → Core b e → List (Report b) × Core b e
  perform_all [] core = ([], core)
  perform_all (op ∷ ops) core =
      let (r, core') = perform op core in let (rs, last) = perform_all ops core' in (r ∷ rs, last)
