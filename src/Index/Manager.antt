-- ===== src/Index/Manager.antt =====
-- db/index/index_manager.cpp: both indexes and the persistor behind one lock.
pub mod Laws
pub mod Rebuild
use aevum.Prelude.{
  Bool, true, false, not, [], ◌∷◌, List, Option, none, some, Str, lit, is_empty, if◌then◌else◌,
}
use aevum.Util.Status.{Status, ok, io_error}
use aevum.Bson.{Bson, find_utf8, doc_empty}
use aevum.Storage.{Engine, Store}
use aevum.Index.Primary.{
  PrimaryIndexer, get_by_id, get_all, add_document_to_primary_index,
  remove_document_from_primary_index, clear_collection_index,
}
use aevum.Index.Secondary.{
  SecondaryIndexer, update_custom_index, get_by_value, is_field_indexed, add_indexed_field,
  clear_collection_indexes,
}
use aevum.Index.Persistor.{persist_definitions, load_index_definitions}

pub record IndexManager (b : Bson) : Type 0 where
  pub primary : PrimaryIndexer b
  pub secondary : SecondaryIndexer b

module _ (b : Bson) where
  text_or_empty : Option Str → Str
  text_or_empty none = []
  text_or_empty (some s) = s

  -- The id, where it is a string; the text has the length that the iterator reports.
  unfoldable pub extract_id : b.Doc → Str
  unfolding text_or_empty
  extract_id doc = if doc_empty b doc then [] else text_or_empty (find_utf8 b doc (lit "_id"))

  pub add_to_primary : Str → b.Doc → PrimaryIndexer b → PrimaryIndexer b
  add_to_primary coll doc p =
      if is_empty (extract_id doc)
      then p
      else add_document_to_primary_index b coll (extract_id doc) doc p

  unfoldable pub add_document_to_indexes : Str → b.Doc → IndexManager b → IndexManager b
  unfolding add_to_primary
  add_document_to_indexes coll doc m = record {
    primary = add_to_primary coll doc m.primary;
    secondary = update_custom_index b coll doc true m.secondary;
  }

  unfoldable pub remove_document_from_indexes : Str → b.Doc → IndexManager b → IndexManager b
  remove_document_from_indexes coll doc m = record {
    primary =
        if is_empty (extract_id doc)
        then m.primary
        else remove_document_from_primary_index b coll (extract_id doc) m.primary;
    secondary = update_custom_index b coll doc false m.secondary;
  }

  -- The loop of `rebuild_index`.
  unfoldable pub add_all : Str → List b.Doc → IndexManager b → IndexManager b
  add_all coll [] m = m
  add_all coll (doc ∷ docs) m = add_all coll docs (add_document_to_indexes coll doc m)

  unfoldable pub clear_collection : Str → IndexManager b → IndexManager b
  clear_collection coll m = record {
    primary = clear_collection_index b coll m.primary;
    secondary = clear_collection_indexes b coll m.secondary;
  }

  unfoldable pub rebuild_index : Str → List b.Doc → IndexManager b → IndexManager b
  unfolding add_all clear_collection
  rebuild_index coll docs m = add_all coll docs (clear_collection coll m)

  unfoldable pub get_document_by_id : IndexManager b → Str → Str → Option b.Doc
  get_document_by_id m coll id = get_by_id b m.primary coll id

  unfoldable pub get_all_documents : IndexManager b → Str → List b.Doc
  get_all_documents m coll = get_all b m.primary coll

  unfoldable pub get_documents_by_secondary_index : IndexManager b → Str → Str → Str → List b.Doc
  get_documents_by_secondary_index m coll field value = get_by_value b m.secondary coll field value

module _ (b : Bson) (e : Engine) where
  persist_status : Bool → Status
  persist_status true = ok
  persist_status false = io_error (lit "Failed to persist index definitions.")

  unfoldable pub persist_index_definitions : IndexManager b → Store e → Status × Store e
  unfolding persist_status
  persist_index_definitions m st =
      let (success, st') = persist_definitions b e m.secondary.indexed_fields st in
      (persist_status success, st')

  unfoldable pub create_index :
      Str → Str → List b.Doc → IndexManager b → Store e → Status × IndexManager b × Store e
  unfolding persist_index_definitions
  create_index coll field docs m st =
      if is_field_indexed b m.secondary coll field
      then (ok, m, st)
      else let m' =
          rebuild_index b coll docs
            (record m { secondary = add_indexed_field b coll field m.secondary }) in
        let (status, st') = persist_index_definitions m' st in (status, m', st')

  -- `load_index_definitions` reports success in every case, so the status is OK.
  unfoldable pub load_all_index_definitions :
      IndexManager b → Store e → Status × IndexManager b × Store e
  load_all_index_definitions m st =
      let (fields, st') = load_index_definitions b e m.secondary.indexed_fields st in
      (ok, record m { secondary = record m.secondary { indexed_fields = fields } }, st')
