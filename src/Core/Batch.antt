-- ===== src/Core/Batch.antt =====
-- Core::update and Core::upsert of db/core/core.cpp. The two calls that free the engine's answer
-- are not modelled.
use aevum.Prelude.{
  ℕ, not, ◌&&◌, ◌||◌, [], ◌∷◌, List, Option, none, some, Str, lit, c_str, str_eq, is_empty,
  if◌then◌else◌, ℤ, pos,
}
use aevum.Util.Status.{Status, ok, is_ok, not_found}
use aevum.Bson.{Bson, find_utf8, parse, to_json}
use aevum.Ffi.{Ffi, UpdateResult, is_int, is_positive}
use aevum.Storage.{Engine, sync_collection}
use aevum.Schema.{get_schema}
use aevum.Index.Manager.{rebuild_index}
use aevum.Core.{Core}
use aevum.Core.Read.{fetch_collection_as_json_array, or_text, array_documents, count}
use aevum.Core.Write.{insert}

module _ (b : Bson) where
  -- The pairs for the storage: the documents that have a string for their `_id`.
  unfoldable pub sync_batch : List b.Doc → List (Str × b.Doc)
  sync_batch [] = []
  sync_batch (doc ∷ docs) = elim (find_utf8 b doc (lit "_id")) [
    | none ↦ sync_batch docs
    | some id ↦ (c_str id, doc) ∷ sync_batch docs
  ]

  -- The documents for the indexes: those of the pairs.
  unfoldable pub index_batch : List (Str × b.Doc) → List b.Doc
  index_batch [] = []
  index_batch ((id, doc) ∷ rest) = doc ∷ index_batch rest

  schema_text : Option b.Doc → Str
  schema_text none = []
  schema_text (some schema) = to_json b schema

module _ (b : Bson) (e : Engine) where
  -- The part of `update` behind the parse.
  unfoldable pub replace_collection :
      Str → List (Str × b.Doc) → ℤ → Core b e → (Status × ℤ) × Core b e
  replace_collection coll batch affected core =
      let (status, st) = sync_collection b e coll batch core.storage in
      if not (is_ok status) then ((status, pos 0), record core { storage = st }) else (
        (ok, affected),
        record core {
          storage = st;
          index_manager = rebuild_index b coll (index_batch b batch) core.index_manager;
        },
      )

  unfoldable pub parsed_update :
      Str → Status × Option b.Doc → ℤ → Core b e → (Status × ℤ) × Core b e
  parsed_update coll (status, none) affected core = ((status, pos 0), core)
  parsed_update coll (status, some updated) affected core =
      replace_collection coll (sync_batch b (array_documents b (b.entries updated))) affected core

  unfoldable pub apply_update : Str → UpdateResult → Core b e → (Status × ℤ) × Core b e
  unfolding parsed_update
  apply_update coll result core =
      let updated = c_str (or_text b [] result.update_data) in
      if (is_empty updated || str_eq updated (lit "[]")) && is_int result.modified_count 0
      then ((not_found (lit "No documents were modified."), pos 0), core)
      else parsed_update coll (parse b updated) result.modified_count core

module _ (b : Bson) (e : Engine) (ffi : Ffi) where
  -- The call of the query engine in `update`.
  unfoldable pub update_answer : Str → Str → Str → Core b e → UpdateResult
  unfolding schema_text
  update_answer coll query_json update_json core =
      ffi.rust_update (c_str (fetch_collection_as_json_array b e ffi core coll)) (c_str query_json)
        (c_str update_json) (c_str (schema_text b (get_schema b core.schema_manager coll)))

  -- Core::update
  unfoldable pub update : Str → Str → Str → Core b e → (Status × ℤ) × Core b e
  unfolding apply_update
  update coll query_json update_json core =
      apply_update b e coll (update_answer coll query_json update_json core) core

  -- Core::upsert, when no other call comes between its two.
  unfoldable pub upsert : ℕ → ℕ → Str → Str → b.Doc → Core b e → Status × Core b e
  unfolding update
  upsert word1 word2 coll query_json doc core =
      if is_positive (count b e ffi core coll query_json)
      then (let ((status, n), core') = update coll query_json (to_json b doc) core in
          (status, core'))
      else let ((status, id), core') = insert b e ffi word1 word2 coll doc core in (status, core')
