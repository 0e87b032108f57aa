-- ===== src/Index/Persistor.antt =====
-- db/index/index_persistor.cpp: the definitions of the secondary indexes as documents of the
-- collection `_indexes`, with the key `<collection>::<field>`.
use aevum.Prelude.{
  Bool, true, false, not, ◌&&◌, [], ◌∷◌, ◌++◌, List, Option, none, some, Str, Map, lookup_or,
  insert, add, lit, c_str, is_empty, if◌then◌else◌,
}
use aevum.Util.Status.{is_ok}
use aevum.Bson.{Bson, find_utf8, doc_empty}
use aevum.Storage.{Engine, Store, load_collection, put, sync_collection}

module _ (b : Bson) where
  -- The document of one definition.
  pub definition_doc : Str → Str → b.Doc
  definition_doc coll field =
      b.append_utf8 (b.append_utf8 b.fresh (lit "collection") (c_str coll)) (lit "field")
        (c_str field)

  text_or_empty : Option Str → Str
  text_or_empty none = []
  text_or_empty (some s) = s

  -- One round of the loop that reads the definitions back.
  pub load_definition : b.Doc → Map (List Str) → Map (List Str)
  unfolding text_or_empty lookup_or
  load_definition doc fields =
      if doc_empty b doc
      then fields
      else let coll = c_str (text_or_empty (find_utf8 b doc (lit "collection"))) in
        let field = c_str (text_or_empty (find_utf8 b doc (lit "field"))) in
        if not (is_empty coll) && not (is_empty field)
        then insert coll (add field (lookup_or [] coll fields)) fields
        else fields

  pub load_definitions : List b.Doc → Map (List Str) → Map (List Str)
  load_definitions [] fields = fields
  load_definitions (doc ∷ docs) fields = load_definitions docs (load_definition doc fields)

module _ (b : Bson) (e : Engine) where
  -- The inner loop: every field of one collection; a failed `put` is remembered.
  persist_fields : Str → List Str → Bool → Store e → Bool × Store e
  persist_fields coll [] success st = (success, st)
  persist_fields coll (field ∷ fields) success st =
      let (status, st') =
        put b e (lit "_indexes") (coll ++ (lit "::" ++ field)) (definition_doc b coll field) st in
      persist_fields coll fields (success && is_ok status) st'

  persist_all : Map (List Str) → Bool → Store e → Bool × Store e
  unfolding persist_fields
  persist_all [] success st = (success, st)
  persist_all ((coll, fields) ∷ rest) success st =
      let (success', st') = persist_fields coll fields success st in persist_all rest success' st'

  -- IndexPersistor::persist_index_definitions
  pub persist_definitions : Map (List Str) → Store e → Bool × Store e
  unfolding persist_all
  persist_definitions fields st =
      let (status, st') = sync_collection b e (lit "_indexes") [] st in
      if not (is_ok status) then (false, st') else persist_all fields true st'

  -- IndexPersistor::load_index_definitions, which reports success in every case.
  pub load_index_definitions : Map (List Str) → Store e → Map (List Str) × Store e
  unfolding load_definitions
  load_index_definitions fields st =
      let (docs, st') = load_collection b e (lit "_indexes") st in
      (load_definitions b docs fields, st')
