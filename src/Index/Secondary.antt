-- ===== src/Index/Secondary.antt =====
-- db/index/secondary_indexer.cpp: from a collection, an indexed field and a value's text to the
-- documents that have it.
pub mod Laws
use aevum.Prelude.{
  Bool, true, false, not, [], ◌∷◌, ◌++◌, List, Option, none, some, Str, Map, lookup, lookup_or,
  insert, erase, lit, c_str, str_eq, keep, is_empty, contains, add, if◌then◌else◌, int_to_string,
}
use aevum.Bson.{Bson, Value, utf8, int32, int64, double, boolean, document, other, doc_empty}

pub record SecondaryIndexer (b : Bson) : Type 0 where
  pub custom_indexes : Map (Map (Map (List b.Doc)))
  pub indexed_fields : Map (List Str)

module _ (b : Bson) where
  value_text : Option (Value b.Doc b.Double b.Other) → Str
  value_text none = []
  value_text (some (utf8 s)) = s
  value_text (some (int32 n)) = int_to_string n
  value_text (some (int64 n)) = int_to_string n
  value_text (some (double x)) = b.double_to_string x
  value_text (some (boolean true)) = lit "true"
  value_text (some (boolean false)) = lit "false"
  value_text (some (document d)) = []
  value_text (some (other o)) = []

  unfoldable pub get_value_as_string : b.Doc → Str → Str
  unfolding value_text
  get_value_as_string doc field =
      if doc_empty b doc then [] else value_text (b.find_field doc (c_str field))

  unfoldable pub get_doc_id : b.Doc → Str
  get_doc_id doc = get_value_as_string doc (lit "_id")

  -- custom_indexes_[coll][field][value], where a missing entry reads as the empty vector
  unfoldable pub get_bucket : Map (Map (Map (List b.Doc))) → Str → Str → Str → List b.Doc
  get_bucket m coll field value = lookup_or [] value (lookup_or [] field (lookup_or [] coll m))

  unfoldable pub set_bucket :
      Str → Str → Str → List b.Doc → Map (Map (Map (List b.Doc))) → Map (Map (Map (List b.Doc)))
  set_bucket coll field value docs m =
      let fields = lookup_or [] coll m in
      insert coll (insert field (insert value docs (lookup_or [] field fields)) fields) m

  -- The vector after `push_back`, or after `erase` of `remove_if`.
  unfoldable pub changed_bucket : Bool → b.Doc → Str → List b.Doc → List b.Doc
  changed_bucket true doc doc_id docs = docs ++ doc ∷ []
  changed_bucket false doc doc_id docs = keep (λ d. not (str_eq (get_doc_id d) doc_id)) docs

  -- The loop over the indexed fields.
  unfoldable pub update_fields :
      Bool
      → Str
      → b.Doc
      → Str
      → List Str
      → Map (Map (Map (List b.Doc)))
      → Map (Map (Map (List b.Doc)))
  update_fields adds coll doc doc_id [] m = m
  update_fields adds coll doc doc_id (field ∷ fields) m =
      let value = get_value_as_string doc field in
      update_fields adds coll doc doc_id fields (
        if is_empty value
        then m
        else set_bucket coll field value
            (changed_bucket adds doc doc_id (get_bucket m coll field value)) m)

  unfoldable pub update_custom_index : Str → b.Doc → Bool → SecondaryIndexer b → SecondaryIndexer b
  update_custom_index coll doc adds s = elim (lookup coll s.indexed_fields) [
    | none ↦ s
    | some fields ↦ if is_empty (get_doc_id doc) then s else record s {
      custom_indexes = update_fields adds coll doc (get_doc_id doc) fields s.custom_indexes;
    }
  ]

  -- SecondaryIndexer::get_documents_by_secondary_index
  unfoldable pub get_by_value : SecondaryIndexer b → Str → Str → Str → List b.Doc
  unfolding get_bucket lookup_or
  get_by_value s coll field value = get_bucket s.custom_indexes coll field value

  unfoldable pub is_field_indexed : SecondaryIndexer b → Str → Str → Bool
  unfolding lookup_or
  is_field_indexed s coll field = contains field (lookup_or [] coll s.indexed_fields)

  unfoldable pub add_indexed_field : Str → Str → SecondaryIndexer b → SecondaryIndexer b
  unfolding lookup_or
  add_indexed_field coll field s = record s {
    indexed_fields = insert coll (add field (lookup_or [] coll s.indexed_fields)) s.indexed_fields;
  }

  unfoldable pub clear_collection_indexes : Str → SecondaryIndexer b → SecondaryIndexer b
  clear_collection_indexes coll s = record s { custom_indexes = erase coll s.custom_indexes }
