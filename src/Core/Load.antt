-- ===== src/Core/Load.antt =====
-- Core::load_all and the constructor of db/core/core.cpp.
use aevum.Prelude.{
  ℕ, false, not, [], ◌∷◌, List, Option, none, some, Str, lit, c_str, str_eq, is_empty,
  if◌then◌else◌,
}
use aevum.Util.Status.{is_ok}
use aevum.Bson.{Bson, find_utf8}
use aevum.Storage.{Engine, Store, init, list_collections, load_collection}
use aevum.Auth.Role.{UserRole, admin, read_only, stored_role}
use aevum.Auth.Manager.{AuthManager, add_user, has_no_users}
use aevum.Schema.{SchemaManager, add_schema_to_cache}
use aevum.Index.Manager.{rebuild_index, load_all_index_definitions}
use aevum.Core.{Core}
use aevum.Core.Admin.{create_user}

module _ (b : Bson) where
  -- One document of `_schemas`: the whole document becomes the schema.
  unfoldable pub load_schema : b.Doc → SchemaManager b → SchemaManager b
  load_schema doc m = elim (find_utf8 b doc (lit "collection")) [
    | none ↦ m
    | some coll ↦ add_schema_to_cache b (c_str coll) doc m
  ]

  unfoldable pub load_schemas : List b.Doc → SchemaManager b → SchemaManager b
  unfolding load_schema
  load_schemas [] m = m
  load_schemas (doc ∷ docs) m = load_schemas docs (load_schema doc m)

  hash_text : Option Str → Str
  hash_text none = []
  hash_text (some s) = c_str s

  -- A user with no string for its role is READ_ONLY.
  role_of : Option Str → UserRole
  role_of none = read_only
  role_of (some s) = stored_role (c_str s)

  unfoldable pub load_user : b.Doc → AuthManager → AuthManager
  unfolding hash_text role_of
  load_user doc m =
      let key_hash = hash_text (find_utf8 b doc (lit "key_hash")) in
      let role = role_of (find_utf8 b doc (lit "role")) in
      if is_empty key_hash then m else add_user m key_hash role

  unfoldable pub load_users : List b.Doc → AuthManager → AuthManager
  load_users [] m = m
  load_users (doc ∷ docs) m = load_users docs (load_user doc m)

module _ (b : Bson) (e : Engine) where
  unfoldable pub load_definitions_of : Core b e → Core b e
  load_definitions_of core =
      let (status, m, st) = load_all_index_definitions b e core.index_manager core.storage in
      record core { index_manager = m; storage = st }

  -- One round of the loop over the collections.
  unfoldable pub load_named : Str → Core b e → Core b e
  unfolding load_definitions_of load_users load_schemas
  load_named name core =
      if str_eq name (lit "_indexes")
      then load_definitions_of core
      else let (docs, st) = load_collection b e name core.storage in
        let loaded = record core { storage = st } in
        if str_eq name (lit "_schemas")
        then record loaded { schema_manager = load_schemas b docs core.schema_manager }
        else if str_eq name (lit "_auth")
        then record loaded { auth_manager = load_users b docs core.auth_manager }
        else record loaded { index_manager = rebuild_index b name docs core.index_manager }

  pub load_names : List Str → Core b e → Core b e
  load_names [] core = core
  load_names (name ∷ names) core = load_names names (load_named name core)

  pub load_all : Core b e → Core b e
  unfolding load_names
  load_all core = load_names (list_collections e core.storage) core

  -- The managers before anything is loaded.
  pub empty_core : Store e → Core b e
  empty_core st = record {
    storage = st;
    auth_manager = record { auth_cache = [] };
    schema_manager = record { schemas = [] };
    index_manager = record {
      primary = record { id_indexes = [] };
      secondary = record { custom_indexes = []; indexed_fields = [] };
    };
  }

  bootstrap : ℕ → ℕ → Core b e → Core b e
  bootstrap word1 word2 core =
      if has_no_users core.auth_manager
      then (create_user b e word1 word2 (lit "root") admin core).1
      else core

  -- The constructor, over the state of the engine at the start; `none` is the call of abort.
  pub start : ℕ → ℕ → Str → e.State → Option (Core b e)
  unfolding load_all bootstrap empty_core
  start word1 word2 data_dir disk =
      let (status, st) = init e (record { base_path = data_dir; conn = false; disk = disk }) in
      if not (is_ok status) then none else some (bootstrap word1 word2 (load_all (empty_core st)))
