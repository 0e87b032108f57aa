-- ===== src/Schema/Laws.antt =====
-- What a schema becomes, where it is kept, and what validation does with it.
use aevum.Prelude.{
  ◌≡◌, ap, ◌∙◌, sym, true, ◌&&◌, [], ◌∷◌, ◌++◌, List, map, none, some, Str, lookup-insert, lit,
  c_str, str_eq, if◌then◌else◌, arith, append-nil,
}
use mathlib.Core.List.{append_assoc}
use aevum.Util.Status.{is_ok}
use aevum.Bson.{Bson, BsonLaws, Value, utf8, int32, int64, double, boolean, document, other}
use aevum.Ffi.{Ffi}
use aevum.Storage.{Engine, Store}
use aevum.Schema.{
  SchemaManager, validate, validate_via_rust, append_rule, append_rules, transform,
  persistent_schema, get_schema, add_schema_to_cache, set_schema,
}

module _ (b : Bson) where
  -- The rule of one field: a type name under `$type`, and any other value as it is.
  abbrev pub rule : Str × Value b.Doc b.Double b.Other → Str × Value b.Doc b.Double b.Other
  rule (key, utf8 name) = (key, document (b.append_utf8 b.fresh (lit "$type") (c_str name)))
  rule (key, int32 n) = (key, int32 n)
  rule (key, int64 n) = (key, int64 n)
  rule (key, double x) = (key, double x)
  rule (key, boolean x) = (key, boolean x)
  rule (key, document d) = (key, document d)
  rule (key, other o) = (key, other o)

  append_rule-entries :
      BsonLaws b
      → (d : b.Doc) (key : Str) (v : Value b.Doc b.Double b.Other)
      → b.entries (append_rule b d key v) ≡ b.entries d ++ rule (key, v) ∷ []
  unfolding append_rule
  append_rule-entries laws d key (utf8 name) = laws.entries-append_document d key _
  append_rule-entries laws d key (int32 n) = laws.entries-append_value d key _
  append_rule-entries laws d key (int64 n) = laws.entries-append_value d key _
  append_rule-entries laws d key (double x) = laws.entries-append_value d key _
  append_rule-entries laws d key (boolean x) = laws.entries-append_value d key _
  append_rule-entries laws d key (document c) = laws.entries-append_value d key _
  append_rule-entries laws d key (other o) = laws.entries-append_value d key _

  append_rules-entries :
      BsonLaws b
      → (es : List (Str × Value b.Doc b.Double b.Other)) (d : b.Doc)
      → b.entries (append_rules b es d) ≡ b.entries d ++ map rule es
  unfolding append_rules
  append_rules-entries laws [] d = sym (append-nil (b.entries d))
  append_rules-entries laws ((key, v) ∷ rest) d =
      append_rules-entries laws rest (append_rule b d key v)
      ∙ (ap (λ es. es ++ map rule rest) (append_rule-entries laws d key v)
          ∙ append_assoc (b.entries d) (rule (key, v) ∷ []) (map rule rest))

  -- The transformed schema has the fields of the given one in order, each with its rule.
  pub transform-entries :
      BsonLaws b → (schema : b.Doc) → b.entries (transform b schema) ≡ map rule (b.entries schema)
  unfolding transform
  transform-entries laws schema =
      append_rules-entries laws (b.entries schema) b.fresh
      ∙ ap (λ es. es ++ map rule (b.entries schema)) laws.entries-fresh

  -- The stored schema is the cached one behind one more field, the collection's name.
  pub persistent_schema-entries :
      BsonLaws b
      → (coll : Str) (schema : b.Doc)
      → b.entries (persistent_schema b coll schema)
        ≡ (lit "collection", utf8 (c_str coll)) ∷ b.entries schema
  unfolding persistent_schema
  persistent_schema-entries laws coll schema =
      laws.entries-concat _ schema
      ∙ (ap (λ es. es ++ b.entries schema)
            (laws.entries-append_utf8 b.fresh (lit "collection") (c_str coll))
          ∙ ap (λ es. (es ++ (lit "collection", utf8 (c_str coll)) ∷ []) ++ b.entries schema)
              laws.entries-fresh)

  -- A document passes exactly if its collection has no schema, or neither it nor the schema is
  -- empty and the query engine answers 1.
  pub validate-ok :
      (ffi : Ffi) (m : SchemaManager b) (coll : Str) (doc : b.Doc)
      → is_ok (validate b ffi m coll doc) ≡ (elim (get_schema b m coll) [
        | none ↦ true
        | some schema ↦ validate_via_rust b ffi doc schema
      ])
  unfolding validate get_schema
  validate-ok ffi m coll doc = ground arith

module _ (b : Bson) (e : Engine) where
  -- `set_schema` with status OK caches the transformed schema for the collection and changes no
  -- other; with any other status the cache is as before.
  pub get_schema-set_schema :
      (coll : Str) (schema : b.Doc) (m : SchemaManager b) (st : Store e) (c : Str)
      → let r = set_schema b e coll schema m st in
        get_schema b r.1 c
        ≡ (if is_ok r.0 && str_eq coll c then some (transform b schema) else get_schema b m c)
  unfolding set_schema get_schema add_schema_to_cache
  get_schema-set_schema coll schema m st c =
      ground (arith, lookup-insert coll c (transform b schema) m.schemas)
