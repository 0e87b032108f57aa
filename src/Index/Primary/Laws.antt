-- ===== src/Index/Primary/Laws.antt =====
-- The primary index as a map from pairs of a collection and an id.
use aevum.Prelude.{
  ◌≡◌, ◌&&◌, [], none, some, Str, lookup, lookup_or, lookup-insert, lookup-erase, str_eq,
  str_eq_iff, if◌then◌else◌, arith, insert, erase,
}
use aevum.Bson.{Bson}
use aevum.Index.Primary.{
  PrimaryIndexer, get_by_id, add_document_to_primary_index, remove_document_from_primary_index,
  clear_collection_index,
}

module _ (b : Bson) where
  pub get_by_id-add :
      (p : PrimaryIndexer b) (coll id : Str) (doc : b.Doc) (c i : Str)
      → get_by_id b (add_document_to_primary_index b coll id doc p) c i
        ≡ (if str_eq coll c && str_eq id i then some doc else get_by_id b p c i)
  unfolding get_by_id add_document_to_primary_index lookup
  get_by_id-add p coll id doc c i = ground (
    arith,
    str_eq_iff coll c,
    lookup-insert coll c (insert id doc (lookup_or [] coll p.id_indexes)) p.id_indexes,
    lookup-insert id i doc (lookup_or [] coll p.id_indexes),
  )

  pub get_by_id-remove :
      (p : PrimaryIndexer b) (coll id c i : Str)
      → get_by_id b (remove_document_from_primary_index b coll id p) c i
        ≡ (if str_eq coll c && str_eq id i then none else get_by_id b p c i)
  unfolding get_by_id remove_document_from_primary_index lookup_or
  get_by_id-remove p coll id c i =
      let docs = lookup_or [] coll p.id_indexes in
      ground (
        arith,
        str_eq_iff coll c,
        lookup-insert coll c (erase id docs) p.id_indexes,
        lookup-erase id i docs,
      )

  pub get_by_id-clear :
      (p : PrimaryIndexer b) (coll c i : Str)
      → get_by_id b (clear_collection_index b coll p) c i
        ≡ (if str_eq coll c then none else get_by_id b p c i)
  unfolding get_by_id clear_collection_index
  get_by_id-clear p coll c i = ground (arith, lookup-erase coll c p.id_indexes)
