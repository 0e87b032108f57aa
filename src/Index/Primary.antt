-- ===== src/Index/Primary.antt =====
-- db/index/primary_indexer.cpp: from a collection and an id to the document. The lock of each
-- method makes it atomic, so that each is a function of the two maps.
pub mod Laws
use aevum.Prelude.{[], ◌∷◌, List, Option, none, some, Str, Map, lookup, lookup_or, insert, erase}
use aevum.Bson.{Bson}

pub record PrimaryIndexer (b : Bson) : Type 0 where
  pub id_indexes : Map (Map b.Doc)

module _ (b : Bson) where
  find_in : Option (Map b.Doc) → Str → Option b.Doc
  find_in none id = none
  find_in (some docs) id = lookup id docs

  -- PrimaryIndexer::get_document_by_id
  unfoldable pub get_by_id : PrimaryIndexer b → Str → Str → Option b.Doc
  unfolding find_in
  get_by_id p coll id = find_in (lookup coll p.id_indexes) id

  pub values : Map b.Doc → List b.Doc
  values [] = []
  values ((id, doc) ∷ rest) = doc ∷ values rest

  -- PrimaryIndexer::get_all_documents
  unfoldable pub get_all : PrimaryIndexer b → Str → List b.Doc
  unfolding values
  get_all p coll = elim (lookup coll p.id_indexes) [ none ↦ [] | some docs ↦ values docs ]

  -- id_indexes_[coll][id] = doc
  unfoldable pub add_document_to_primary_index :
      Str → Str → b.Doc → PrimaryIndexer b → PrimaryIndexer b
  unfolding lookup_or
  add_document_to_primary_index coll id doc p = record {
    id_indexes = insert coll (insert id doc (lookup_or [] coll p.id_indexes)) p.id_indexes;
  }

  unfoldable pub remove_document_from_primary_index :
      Str → Str → PrimaryIndexer b → PrimaryIndexer b
  remove_document_from_primary_index coll id p = elim (lookup coll p.id_indexes) [
    | none ↦ p
    | some docs ↦ record { id_indexes = insert coll (erase id docs) p.id_indexes }
  ]

  unfoldable pub clear_collection_index : Str → PrimaryIndexer b → PrimaryIndexer b
  clear_collection_index coll p = record { id_indexes = erase coll p.id_indexes }
