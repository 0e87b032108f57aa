-- ===== src/Tests/CoreRuns.antt =====
-- The theorems of the engine's operations at an engine over tables in memory.
use aevum.Prelude.{
  ◌≡◌, refl, subst, false, [], ◌∷◌, some, Str, codes, lit, c_str, lookup, lookup_or, str_eq,
  is_empty, NoNul, pos, arith,
}
use aevum.Bson.{doc_empty, find_utf8, parse}
use aevum.Ffi.{Ffi}
use aevum.Storage.{put, ensure_table, sync_collection}
use aevum.Storage.Laws.Put.{stored}
use aevum.Index.Primary.{get_by_id}
use aevum.Index.Manager.{get_document_by_id}
use aevum.Schema.{validate}
use aevum.Core.{Core}
use aevum.Core.Read.{find, id_query}
use aevum.Core.Write.{insert, identify}
use aevum.Core.Batch.{update, update_answer}
use aevum.Core.Read.{array_documents, or_text}
use aevum.Core.Mirror.{HasCleanId, Mirrors, IsKeyed, bytes_in}
use aevum.Core.Mirror.Insert.{find-insert, insert_refused, insert-Mirrors}
use aevum.Core.Mirror.Update.{update-Mirrors}
use aevum.Tests.Memory.{Node, nil, text, memory, memory_laws}
use aevum.Tests.Disk.{disk, disk_laws, full_disk, full_disk_laws, empty_store, full_store}

abbrev pub users : Str
users = codes "users"

abbrev pub key_a : Str
key_a = codes "a"

abbrev pub doc_a : Node
doc_a = text (codes "_id") (codes "a") nil

-- A query engine that finds the document `a`, and answers an update with the document `b`.
abbrev pub answers : Ffi
answers = record {
  rust_count = λ c q. pos 1;
  rust_find = λ c q s p l k. some (codes "[a");
  rust_update = λ c q u s. record { update_data = some (codes "[b"); modified_count = pos 1 };
  rust_validate = λ d s. pos 1;
}

-- An engine with nothing in it.
abbrev pub new_core : Core memory disk
new_core = record {
  storage = empty_store;
  auth_manager = record { auth_cache = [] };
  schema_manager = record { schemas = [] };
  index_manager = record {
    primary = record { id_indexes = [] };
    secondary = record { custom_indexes = []; indexed_fields = [] };
  };
}

-- The same over a device that is full.
abbrev full_core : Core memory full_disk
full_core = record {
  storage = full_store;
  auth_manager = new_core.auth_manager;
  schema_manager = new_core.schema_manager;
  index_manager = new_core.index_manager;
}

pub doc_a-HasCleanId : HasCleanId memory doc_a
unfolding find_utf8 lookup lit str_eq
doc_a-HasCleanId s h =
    let same : codes "a" ≡ s = cc in
    subst (λ t. NoNul t × (is_empty t ≡ false)) same ((omega arith, tt), refl)

doc_b-HasCleanId : HasCleanId memory (text (codes "_id") (codes "b") nil)
unfolding find_utf8 lookup lit str_eq
doc_b-HasCleanId s h =
    let same : codes "b" ≡ s = cc in
    subst (λ t. NoNul t × (is_empty t ≡ false)) same ((omega arith, tt), refl)

pub users-NoNul : NoNul users
users-NoNul = omega arith

new_core-Mirrors : Mirrors memory disk new_core users
unfolding lookup lookup_or get_document_by_id get_by_id
new_core-Mirrors i ne = refl

pub new_core-IsKeyed : IsKeyed memory new_core.index_manager
unfolding lookup get_document_by_id get_by_id
new_core-IsKeyed = record { keyed = λ c i d h. cc }

find-insert_example :
    find memory disk answers
      (insert memory disk answers 1 2 users doc_a new_core).1
      users
      key_a
      []
      []
      (pos 0)
      (pos 0)
    ≡ doc_a ∷ []
unfolding insert identify find_utf8 lookup lit str_eq validate put doc_empty id_query parse c_str
find-insert_example =
    find-insert memory disk answers memory_laws 1 2 users doc_a new_core key_a [] [] (pos 0) (pos 0)
      doc_a-HasCleanId refl refl

insert_refused_example :
    ((insert memory full_disk answers 1 2 users doc_a full_core).1.index_manager
      ≡ full_core.index_manager)
    × (lookup key_a (
          full_disk.scan users
            (insert memory full_disk answers 1 2 users doc_a full_core).1.storage.disk)
        ≡ lookup key_a (full_disk.scan users full_core.storage.disk))
unfolding insert identify find_utf8 lookup lit str_eq validate put doc_empty
insert_refused_example =
    insert_refused memory full_disk answers full_disk_laws 1 2 users doc_a full_core users key_a
      refl

insert-Mirrors_example :
    stored disk (insert memory disk answers 1 2 users doc_a new_core).1.storage users key_a
    ≡ bytes_in memory (
        get_document_by_id memory
          (insert memory disk answers 1 2 users doc_a new_core).1.index_manager
          users
          key_a)
insert-Mirrors_example =
    insert-Mirrors memory disk answers memory_laws disk_laws 1 2 users doc_a new_core users
      doc_a-HasCleanId users-NoNul users-NoNul new_core-Mirrors key_a refl

update-Mirrors_example :
    stored disk (update memory disk answers users [] [] new_core).1.storage users (codes "b")
    ≡ bytes_in memory (
        get_document_by_id memory
          (update memory disk answers users [] [] new_core).1.index_manager
          users
          (codes "b"))
unfolding update update_answer array_documents or_text parse c_str lit str_eq
    aevum.Core.Batch.replace_collection sync_collection ensure_table
update-Mirrors_example =
    update-Mirrors memory disk answers memory_laws disk_laws (λ u k v d. refl) users [] [] new_core
      users (doc_b-HasCleanId, tt) users-NoNul users-NoNul refl new_core-Mirrors (codes "b") refl
