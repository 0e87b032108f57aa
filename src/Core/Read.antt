-- ===== src/Core/Read.antt =====
-- Core::fetch_collection_as_json_array, Core::count and Core::find of db/core/core.cpp.
use aevum.Prelude.{
  ℕ, ◌-◌, ◌%◌, ◌^◌, [], ◌∷◌, ◌++◌, List, Option, none, some, Str, lit, c_str, str_eq, ltb,
  if◌then◌else◌, ℤ, pos, negsuc,
}
use aevum.Bson.{Bson, Value, document, find_utf8, parse, to_json}
use aevum.Ffi.{Ffi}
use aevum.Storage.{Engine}
use aevum.Index.Manager.{get_all_documents, get_document_by_id}
use aevum.Core.{Core}

-- The conversion of an `int64_t` argument to the `int32_t` that the callee declares: the low 32
-- bits, read in two's complement.
pub signed32 : ℕ → ℤ
signed32 w = if ltb w (2 ^ 31) then pos w else negsuc (2 ^ 32 - w - 1)

unfoldable pub to_int32 : ℤ → ℤ
unfolding signed32
to_int32 (pos n) = signed32 (n % 2 ^ 32)
to_int32 (negsuc n) = signed32 (2 ^ 32 - 1 - n % 2 ^ 32)

module _ (b : Bson) where
  -- The texts of the documents with commas between them.
  pub join_json : List b.Doc → Str
  join_json [] = []
  join_json (doc ∷ []) = to_json b doc
  join_json (doc ∷ next ∷ rest) = to_json b doc ++ (lit "," ++ join_json (next ∷ rest))

  pub json_array : List b.Doc → Str
  unfolding join_json
  json_array docs = lit "[" ++ (join_json docs ++ lit "]")

  -- The sub-documents under an iterator over an array; `bson_new_from_data` may refuse one.
  unfoldable pub array_documents : List (Str × Value b.Doc b.Double b.Other) → List b.Doc
  array_documents [] = []
  array_documents ((key, document d) ∷ rest) = elim (b.from_data (b.bytes_of d)) [
    | none ↦ array_documents rest
    | some doc ↦ doc ∷ array_documents rest
  ]
  array_documents ((key, value) ∷ rest) = array_documents rest

  -- The id that a query asks for, if `_id` is its only field and holds a string.
  single_id : List (Str × Value b.Doc b.Double b.Other) → b.Doc → Option Str
  single_id [] query = none
  single_id ((key, value) ∷ []) query =
      if str_eq key (lit "_id") then find_utf8 b query (lit "_id") else none
  single_id ((key, value) ∷ next ∷ rest) query = none

  unfoldable pub id_query : Option b.Doc → Option Str
  unfolding single_id
  id_query none = none
  id_query (some query) = single_id (b.entries query) query

  unfoldable pub or_text : Str → Option Str → Str
  or_text fallback none = fallback
  or_text fallback (some s) = s

  unfoldable pub parsed_documents : Option b.Doc → List b.Doc
  unfolding array_documents
  parsed_documents none = []
  parsed_documents (some d) = array_documents (b.entries d)

  unfoldable pub to_results : Option b.Doc → List b.Doc
  to_results none = []
  to_results (some doc) = doc ∷ []

module _ (b : Bson) (e : Engine) (ffi : Ffi) where
  unfoldable pub fetch_collection_as_json_array : Core b e → Str → Str
  unfolding json_array
  fetch_collection_as_json_array core coll =
      json_array b (get_all_documents b core.index_manager coll)

  unfoldable pub count : Core b e → Str → Str → ℤ
  unfolding fetch_collection_as_json_array
  count core coll query_json =
      ffi.rust_count (c_str (fetch_collection_as_json_array core coll)) (c_str query_json)

  find_by_engine : Core b e → Str → Str → Str → Str → ℤ → ℤ → List b.Doc
  unfolding fetch_collection_as_json_array or_text parsed_documents to_int32
  find_by_engine core coll query_json sort_json projection_json limit skip =
      let result =
        ffi.rust_find (c_str (fetch_collection_as_json_array core coll)) (c_str query_json)
          (c_str sort_json) (c_str projection_json) (to_int32 limit) (to_int32 skip) in
      parsed_documents b (parse b (c_str (or_text b (lit "[]") result))).1

  unfoldable pub find : Core b e → Str → Str → Str → Str → ℤ → ℤ → List b.Doc
  unfolding id_query to_results find_by_engine
  find core coll query_json sort_json projection_json limit skip =
      elim (id_query b (parse b query_json).1) [
        | some id ↦ to_results b (get_document_by_id b core.index_manager coll (c_str id))
        | none ↦ find_by_engine core coll query_json sort_json projection_json limit skip
      ]
