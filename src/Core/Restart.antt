-- ===== src/Core/Restart.antt =====
-- What `load_all` makes of the schemas and the indexes that the engine stored before a restart.
use aevum.Prelude.{
  ◌≡◌, refl, ◌∙◌, ap, Bool, false, [], ◌∷◌, List, none, some, Str, lit, c_str, c_str_lem, NoNul,
  str_eq, str_eq_refl, lookup, arith, ◌||◌, map, lookup-insert_self,
}
use aevum.Bson.{Bson, BsonLaws, utf8, find_utf8, utf8_of}
use aevum.Storage.{Engine, load_collection}
use aevum.Schema.{SchemaManager, transform, persistent_schema, get_schema, add_schema_to_cache}
use aevum.Schema.Laws.{persistent_schema-entries, rule, transform-entries}
use aevum.Index.Secondary.{update_custom_index, clear_collection_indexes, get_by_value}
use aevum.Index.Secondary.Laws.{get_by_value-clear}
use aevum.Index.Manager.{
  IndexManager, add_document_to_indexes, add_all, clear_collection, rebuild_index,
  get_documents_by_secondary_index, load_all_index_definitions,
}
use aevum.Core.{Core}
use aevum.Core.Load.{load_schemas, load_schema, load_named}

module _ (b : Bson) (laws : BsonLaws b) where
  find_collection :
      (coll : Str) (schema : b.Doc)
      → find_utf8 b (persistent_schema b coll schema) (lit "collection") ≡ some (c_str coll)
  unfolding find_utf8 lit str_eq lookup
  find_collection coll schema = ap (utf8_of b) (
      laws.find_field-lookup _ (lit "collection")
      ∙ ap (lookup (lit "collection")) (persistent_schema-entries b laws coll schema))

  load_persistent :
      (coll : Str) (schema : b.Doc) (m : SchemaManager b)
      → NoNul coll
      → load_schemas b (persistent_schema b coll schema ∷ []) m
        ≡ add_schema_to_cache b coll (persistent_schema b coll schema) m
  unfolding load_schemas
  load_persistent coll schema m clean =
      rw (find_collection coll schema, load_schema)
        (ap (λ c. add_schema_to_cache b c (persistent_schema b coll schema) m)
          (ap c_str (c_str_lem coll clean) ∙ c_str_lem coll clean))

  -- Loading the document that `set_schema` stored for a collection, whose name holds no NUL,
  -- caches that document as it is: it has one rule more than the schema that was set, a field
  -- `collection` with the collection's name as its value.
  pub load_schemas-extra_rule :
      (coll : Str) (schema : b.Doc) (m : SchemaManager b)
      → NoNul coll
      → let stored = persistent_schema b coll (transform b schema) in
        (get_schema b (load_schemas b (stored ∷ []) m) coll ≡ some stored)
        × (b.entries stored ≡ (lit "collection", utf8 coll) ∷ map (rule b) (b.entries schema))
  unfolding get_schema add_schema_to_cache
  load_schemas-extra_rule coll schema m clean = (
    rw (load_persistent coll (transform b schema) m clean) (lookup-insert_self coll _ m.schemas),
    persistent_schema-entries b laws coll (transform b schema)
        ∙ (ap (λ c. (lit "collection", utf8 c) ∷ b.entries (transform b schema))
              (c_str_lem coll clean)
            ∙ ap (λ es. (lit "collection", utf8 coll) ∷ es) (transform-entries b laws schema)),
  )

module _ (b : Bson) where
  -- No field of the collection is known to be indexed.
  abbrev pub HasNoDefinitions : IndexManager b → Str → Type 0
  HasNoDefinitions m coll = lookup coll m.secondary.indexed_fields ≡ none

  add_without_definitions :
      (coll : Str) (doc : b.Doc) (m : IndexManager b)
      → HasNoDefinitions m coll
      → (add_document_to_indexes b coll doc m).secondary ≡ m.secondary
  unfolding add_document_to_indexes update_custom_index
  add_without_definitions coll doc m h = rw (h, update_custom_index)

  add_all_without_definitions :
      (coll : Str) (docs : List b.Doc) (m : IndexManager b)
      → HasNoDefinitions m coll
      → (add_all b coll docs m).secondary ≡ m.secondary
  unfolding add_all
  add_all_without_definitions coll [] m h = refl
  add_all_without_definitions coll (doc ∷ docs) m h =
      let same = add_without_definitions coll doc m h in
      add_all_without_definitions coll docs (add_document_to_indexes b coll doc m)
        (ap (λ s. lookup coll s.indexed_fields) same ∙ h)
      ∙ same

  rebuild_without_definitions :
      (coll : Str) (docs : List b.Doc) (m : IndexManager b) (f v : Str)
      → HasNoDefinitions m coll
      → get_documents_by_secondary_index b (rebuild_index b coll docs m) coll f v ≡ []
  unfolding rebuild_index get_documents_by_secondary_index clear_collection clear_collection_indexes
  rebuild_without_definitions coll docs m f v h =
      let m0 = clear_collection b coll m in
      ap (λ s. get_by_value b s coll f v) (add_all_without_definitions coll docs m0 h)
      ∙ ground (arith, get_by_value-clear b m.secondary coll coll f v, str_eq_refl coll)

-- A collection of the system.
abbrev pub is_system : Str → Bool
is_system name =
    str_eq name (lit "_indexes") || (str_eq name (lit "_schemas") || str_eq name (lit "_auth"))

pub not_system :
    (name : Str)
    → is_system name ≡ false
    → (str_eq name (lit "_indexes") ≡ false)
      × (str_eq name (lit "_schemas") ≡ false)
      × (str_eq name (lit "_auth") ≡ false)
not_system name h = ground arith

module _ (b : Bson) (e : Engine) where
  -- A user collection without known definitions that is loaded before `_indexes` has an empty
  -- secondary index afterwards, whatever definitions `_indexes` holds for it: they are read,
  -- but nothing is indexed by them.
  pub load_named-before_definitions :
      (coll : Str) (core : Core b e) (f v : Str)
      → is_system coll ≡ false
      → HasNoDefinitions b core.index_manager coll
      → get_documents_by_secondary_index b
          (load_named b e (lit "_indexes") (load_named b e coll core)).index_manager
          coll
          f
          v
        ≡ []
  unfolding load_named load_all_index_definitions get_documents_by_secondary_index get_by_value
  load_named-before_definitions coll core f v user h =
      let tests = not_system coll user in
      rw (tests.0, tests.1, tests.2, str_eq_refl (lit "_indexes"), load_named)
        (rebuild_without_definitions b coll (load_collection b e coll core.storage).0
          core.index_manager f v h)
