-- ===== src/Core/Write.antt =====
-- Core::insert and Core::remove of db/core/core.cpp. The random words of a new id are arguments.
use aevum.Prelude.{
  ℕ, ◌+◌, not, [], ◌∷◌, List, Option, none, some, Str, lit, c_str, is_empty, if◌then◌else◌, pos,
}
use aevum.Util.Status.{Status, ok, is_ok, not_found}
use aevum.Util.Uuid.{generate_v4}
use aevum.Bson.{Bson, Value, document, find_utf8, parse}
use aevum.Ffi.{Ffi}
use aevum.Storage.{Engine, put}
use aevum.Storage
use aevum.Schema.{validate}
use aevum.Index.Manager.{add_document_to_indexes, remove_document_from_indexes, get_document_by_id}
use aevum.Core.{Core}
use aevum.Core.Read.{fetch_collection_as_json_array, or_text}

module _ (b : Bson) where
  -- The id of a document to insert, and the document with it: one that has a string for its `_id`
  -- keeps it, any other gets a new id before its fields.
  unfoldable pub identify : Str → b.Doc → Str × b.Doc
  identify new_id doc = elim (find_utf8 b doc (lit "_id")) [
    | some id ↦ (c_str id, doc)
    | none ↦ (new_id, b.concat (b.append_utf8 b.fresh (lit "_id") (c_str new_id)) doc)
  ]

  -- The ids in the answer of the query engine.
  text_list : Option Str → List Str → List Str
  text_list none rest = rest
  text_list (some s) rest = c_str s ∷ rest

  unfoldable pub array_ids : List (Str × Value b.Doc b.Double b.Other) → List Str
  unfolding text_list
  array_ids [] = []
  array_ids ((key, document d) ∷ rest) = text_list (find_utf8 b d (lit "_id")) (array_ids rest)
  array_ids ((key, value) ∷ rest) = array_ids rest

module _ (b : Bson) (e : Engine) where
  -- The part of `insert` behind the validation.
  unfoldable pub store_document : Str → Str → b.Doc → Core b e → (Status × Str) × Core b e
  store_document coll id doc core =
      let (status, st) = put b e coll id doc core.storage in
      if not (is_ok status) then ((status, []), record core { storage = st }) else (
        (ok, id),
        record core {
          storage = st;
          index_manager = add_document_to_indexes b coll doc core.index_manager;
        },
      )

  -- The loop of `remove`: an id that the index does not know is passed over, and one that the
  -- storage does not give up is left.
  unfoldable pub remove_ids : Str → List Str → ℕ → Core b e → ℕ × Core b e
  remove_ids coll [] removed core = (removed, core)
  remove_ids coll (id ∷ ids) removed core = elim (get_document_by_id b core.index_manager coll id) [
    | none ↦ remove_ids coll ids removed core
    | some doc ↦
        let (status, st) = Storage.remove e coll id core.storage in
        let rest = remove_ids coll ids removed (record core { storage = st }) in
        let gone = remove_ids coll ids (removed + 1) (record core {
          storage = st;
          index_manager = remove_document_from_indexes b coll doc core.index_manager;
        }) in
        if not (is_ok status) then rest else gone
  ]

  unfoldable pub remove_found : Str → Option b.Doc → Core b e → (Status × ℕ) × Core b e
  remove_found coll none core = ((not_found (lit "No documents found to remove."), 0), core)
  remove_found coll (some found) core =
      let ids = array_ids b (b.entries found) in
      if is_empty ids
      then ((not_found (lit "No documents matched the query."), 0), core)
      else let (removed, core') = remove_ids coll ids 0 core in ((ok, removed), core')

module _ (b : Bson) (e : Engine) (ffi : Ffi) where
  -- Core::insert, with the two random words of `generate_v4`.
  unfoldable pub insert : ℕ → ℕ → Str → b.Doc → Core b e → (Status × Str) × Core b e
  unfolding identify store_document
  insert word1 word2 coll doc core =
      let (id, doc') = identify b (generate_v4 word1 word2) doc in
      let status = validate b ffi core.schema_manager coll doc' in
      if not (is_ok status) then ((status, []), core) else store_document b e coll id doc' core

  -- Core::remove
  unfoldable pub remove : Str → Str → Core b e → (Status × ℕ) × Core b e
  unfolding remove_found
  remove coll query_json core =
      let result =
        ffi.rust_find (c_str (fetch_collection_as_json_array b e ffi core coll)) (c_str query_json)
          (lit "{}") (lit "{\"_id\":1}") (pos 0) (pos 0) in
      remove_found b e coll (parse b (c_str (or_text b (lit "[]") result))).1 core
