-- ===== src/Tests/IndexRuns.antt =====
-- The theorems of the indexes at a collection with one indexed field.
use aevum.Prelude.{
  ◌≡◌, refl, [], ◌∷◌, none, some, Str, codes, lit, c_str, lookup, lookup_or, str_eq, contains,
}
use aevum.Bson.{doc_empty, find_utf8}
use aevum.Index.Secondary.{get_value_as_string, get_doc_id, get_by_value}
use aevum.Index.Manager.{
  IndexManager, extract_id, add_document_to_indexes, remove_document_from_indexes,
  get_document_by_id, get_documents_by_secondary_index,
}
use aevum.Index.Manager.Laws.{remove-add, add-add_stale}
use aevum.Tests.Memory.{Node, nil, text, memory}

abbrev users : Str
users = codes "users"

abbrev city : Str
city = codes "city"

-- A document with the id `a` and the city.
abbrev living_in : Str → Node
living_in place = text (codes "_id") (codes "a") (text (codes "city") place nil)

abbrev rome : Node
rome = living_in (codes "rome")

abbrev oslo : Node
oslo = living_in (codes "oslo")

-- No document, and the field `city` is indexed.
abbrev indexed : IndexManager memory
indexed = record {
  primary = record { id_indexes = [] };
  secondary = record { custom_indexes = []; indexed_fields = (users, city ∷ []) ∷ [] };
}

remove-add_example :
    (get_document_by_id memory
        (remove_document_from_indexes memory users rome
          (add_document_to_indexes memory users rome indexed))
        users
        (extract_id memory rome)
      ≡ none)
    × (get_documents_by_secondary_index memory
          (remove_document_from_indexes memory users rome
            (add_document_to_indexes memory users rome indexed))
          users
          city
          (codes "rome")
        ≡ get_documents_by_secondary_index memory indexed users city (codes "rome"))
unfolding lookup_or lookup contains str_eq extract_id lit doc_empty find_utf8
    get_documents_by_secondary_index get_by_value
remove-add_example = remove-add memory indexed users rome city (codes "rome") (refl, tt) refl refl

add-add_stale_example :
    (get_document_by_id memory
        (add_document_to_indexes memory users oslo
          (add_document_to_indexes memory users rome indexed))
        users
        (extract_id memory rome)
      ≡ some oslo)
    × (get_documents_by_secondary_index memory
          (add_document_to_indexes memory users oslo
            (add_document_to_indexes memory users rome indexed))
          users
          city
          (codes "rome")
        ≡ rome ∷ [])
unfolding lookup_or lookup contains str_eq extract_id lit c_str doc_empty find_utf8
    get_documents_by_secondary_index get_by_value get_doc_id get_value_as_string
add-add_stale_example =
    add-add_stale memory indexed users rome oslo city (codes "rome") (refl, tt) refl refl refl refl
      refl
