-- ===== src/Schema.antt =====
-- db/schema: schema_manager.cpp and validator.cpp.
pub mod Laws
use aevum.Prelude.{
  Bool, true, false, not, ◌||◌, [], ◌∷◌, List, Option, none, some, Str, Map, lookup, insert, lit,
  c_str, if◌then◌else◌,
}
use aevum.Util.Status.{Status, ok, is_ok, invalid_argument}
use aevum.Bson.{Bson, Value, utf8, doc_empty, to_json}
use aevum.Ffi.{Ffi, is_int}
use aevum.Storage.{Engine, Store, put}

pub record SchemaManager (b : Bson) : Type 0 where
  pub schemas : Map b.Doc

module _ (b : Bson) where
  unfoldable pub validate_via_rust : Ffi → b.Doc → b.Doc → Bool
  validate_via_rust ffi doc schema =
      if doc_empty b doc || doc_empty b schema
      then false
      else is_int (ffi.rust_validate (c_str (to_json b doc)) (c_str (to_json b schema))) 1

  unfoldable pub validate : Ffi → SchemaManager b → Str → b.Doc → Status
  validate ffi m coll doc = elim (lookup coll m.schemas) [
    | none ↦ ok
    | some schema ↦
        if validate_via_rust ffi doc schema
        then ok
        else invalid_argument (lit "Document does not conform to the collection's schema.")
  ]

  -- One field of the loop in `set_schema`: a type name is wrapped in a `$type` operator.
  append_rule : b.Doc → Str → Value b.Doc b.Double b.Other → b.Doc
  append_rule d key (utf8 name) =
      b.append_document d key (b.append_utf8 b.fresh (lit "$type") (c_str name))
  append_rule d key value = b.append_value d key value

  append_rules : List (Str × Value b.Doc b.Double b.Other) → b.Doc → b.Doc
  append_rules [] d = d
  append_rules ((key, value) ∷ rest) d = append_rules rest (append_rule d key value)

  unfoldable pub transform : b.Doc → b.Doc
  unfolding append_rule append_rules
  transform schema = append_rules (b.entries schema) b.fresh

  unfoldable pub persistent_schema : Str → b.Doc → b.Doc
  persistent_schema coll final_schema =
      b.concat (b.append_utf8 b.fresh (lit "collection") (c_str coll)) final_schema

  unfoldable pub get_schema : SchemaManager b → Str → Option b.Doc
  get_schema m coll = lookup coll m.schemas

  unfoldable pub add_schema_to_cache : Str → b.Doc → SchemaManager b → SchemaManager b
  add_schema_to_cache coll schema m = record { schemas = insert coll schema m.schemas }

module _ (b : Bson) (e : Engine) where
  unfoldable pub set_schema :
      Str → b.Doc → SchemaManager b → Store e → Status × SchemaManager b × Store e
  set_schema coll schema m st =
      let final_schema = transform b schema in
      let (status, st') =
        put b e (lit "_schemas") coll (persistent_schema b coll final_schema) st in
      if not (is_ok status)
      then (status, m, st')
      else (ok, add_schema_to_cache b coll final_schema m, st')
