-- ===== src/Index/Secondary/Laws.antt =====
-- The buckets of the secondary index after a document was added, removed, or a collection cleared.
use aevum.Prelude.{
  ◌≡◌, ◌∙◌, Bool, false, not, ◌&&◌, [], ◌∷◌, List, Str, Map, lookup, lookup_or, insert,
  lookup-insert, lookup-erase, str_eq, str_eq_iff, is_empty, contains, if◌then◌else◌, arith,
}
use aevum.Bson.{Bson}
use aevum.Index.Secondary.{
  SecondaryIndexer, get_value_as_string, get_doc_id, get_bucket, set_bucket, changed_bucket,
  update_fields, update_custom_index, get_by_value, clear_collection_indexes,
}

module _ (b : Bson) where
  get_bucket-set_bucket :
      (coll field value : Str) (docs : List b.Doc) (m : Map (Map (Map (List b.Doc)))) (c f v : Str)
      → get_bucket b (set_bucket b coll field value docs m) c f v ≡ (
          if str_eq coll c && (str_eq field f && str_eq value v)
          then docs
          else get_bucket b m c f v)
  unfolding get_bucket set_bucket lookup_or lookup
  get_bucket-set_bucket coll field value docs m c f v =
      let fields = lookup_or [] coll m in
      ground (
        arith,
        str_eq_iff coll c,
        str_eq_iff field f,
        lookup-insert coll c (insert field (insert value docs (lookup_or [] field fields)) fields)
            m,
        lookup-insert field f (insert value docs (lookup_or [] field fields)) fields,
        lookup-insert value v docs (lookup_or [] field fields),
      )

  -- No field stands twice in the set.
  abbrev pub Distinct : List Str → Type 0
  Distinct [] = Unit {0}
  Distinct (f ∷ fs) = (contains f fs ≡ false) × Distinct fs

  -- The document's value for the field is the text, and is not empty.
  abbrev pub has_value : b.Doc → Str → Str → Bool
  has_value doc f v = not (is_empty v) && str_eq (get_value_as_string b doc f) v

  update_fields_bucket :
      (adds : Bool) (coll : Str) (doc : b.Doc) (id : Str) (fields : List Str)
      (m : Map (Map (Map (List b.Doc)))) (c f v : Str)
      → Distinct fields
      → get_bucket b (update_fields b adds coll doc id fields m) c f v ≡ (
          if str_eq coll c && (contains f fields && has_value doc f v)
          then changed_bucket b adds doc id (get_bucket b m c f v)
          else get_bucket b m c f v)
  unfolding update_fields contains
  update_fields_bucket adds coll doc id [] m c f v h = ground arith
  update_fields_bucket adds coll doc id (field ∷ fields) m c f v h =
      let value = get_value_as_string b doc field in
      update_fields_bucket adds coll doc id fields _ c f v h.1
      ∙ ground (
        arith,
        h.0,
        str_eq_iff coll c,
        str_eq_iff field f,
        str_eq_iff value v,
        get_bucket-set_bucket coll field value
            (changed_bucket b adds doc id (get_bucket b m coll field value)) m c f v,
      )

  -- The fields that the indexer keeps for a collection.
  abbrev pub fields_of : SecondaryIndexer b → Str → List Str
  fields_of s coll = lookup_or [] coll s.indexed_fields

  -- The call changes a bucket exactly where the document has a non-empty id, the field is indexed
  -- and the document's non-empty value for it is the bucket's.
  pub update_custom_index_bucket :
      (s : SecondaryIndexer b) (coll : Str) (doc : b.Doc) (adds : Bool) (c f v : Str)
      → Distinct (fields_of s coll)
      → get_by_value b (update_custom_index b coll doc adds s) c f v ≡ (
          if not (is_empty (get_doc_id b doc))
            && (str_eq coll c && (contains f (fields_of s coll) && has_value doc f v))
          then changed_bucket b adds doc (get_doc_id b doc) (get_by_value b s c f v)
          else get_by_value b s c f v)
  unfolding update_custom_index get_by_value contains
  update_custom_index_bucket s coll doc adds c f v h = ground (
    arith,
    update_fields_bucket adds coll doc (get_doc_id b doc) (fields_of s coll) s.custom_indexes c f v
        h,
  )

  pub update_custom_index_fields :
      (s : SecondaryIndexer b) (coll : Str) (doc : b.Doc) (adds : Bool)
      → (update_custom_index b coll doc adds s).indexed_fields ≡ s.indexed_fields
  unfolding update_custom_index
  update_custom_index_fields s coll doc adds = ground arith

  pub get_by_value-clear :
      (s : SecondaryIndexer b) (coll c f v : Str)
      → get_by_value b (clear_collection_indexes b coll s) c f v
        ≡ (if str_eq coll c then [] else get_by_value b s c f v)
  unfolding get_by_value clear_collection_indexes lookup
  get_by_value-clear s coll c f v = ground (arith, lookup-erase coll c s.custom_indexes)
