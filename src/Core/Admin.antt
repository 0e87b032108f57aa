-- ===== src/Core/Admin.antt =====
-- Core::set_schema, Core::create_index, Core::create_user and Core::authenticate of
-- db/core/core.cpp.
use aevum.Prelude.{ℕ, Str, lit, c_str}
use aevum.Util.Status.{Status}
use aevum.Util.Hash.{djb2_string}
use aevum.Util.Uuid.{generate_v4}
use aevum.Bson.{Bson}
use aevum.Storage.{Engine, put, load_collection}
use aevum.Auth.Role.{UserRole, role_to_string}
use aevum.Auth.Manager.{add_user}
use aevum.Auth
use aevum.Schema
use aevum.Index
use aevum.Core.{Core}

module _ (b : Bson) where
  -- The document of a user.
  unfoldable pub user_doc : Str → Str → Str → b.Doc
  user_doc id key_hash role_str =
      b.append_utf8
        (b.append_utf8 (b.append_utf8 b.fresh (lit "_id") (c_str id)) (lit "key_hash")
          (c_str key_hash))
        (lit "role") (c_str role_str)

module _ (b : Bson) (e : Engine) where
  unfoldable pub set_schema : Str → b.Doc → Core b e → Status × Core b e
  set_schema coll schema core =
      let (status, m, st) = Schema.set_schema b e coll schema core.schema_manager core.storage in
      (status, record core { schema_manager = m; storage = st })

  unfoldable pub create_index : Str → Str → Core b e → Status × Core b e
  create_index coll field core =
      let (docs, st) = load_collection b e coll core.storage in
      let (status, m, st') = Index.Manager.create_index b e coll field docs core.index_manager st in
      (status, record core { index_manager = m; storage = st' })

  -- The user enters the cache before the storage is asked to keep it.
  unfoldable pub create_user : ℕ → ℕ → Str → UserRole → Core b e → Status × Core b e
  unfolding user_doc
  create_user word1 word2 raw_key role core =
      let key_hash = djb2_string raw_key in
      let doc = user_doc b (generate_v4 word1 word2) key_hash (role_to_string role) in
      let (status, st) = put b e (lit "_auth") key_hash doc core.storage in
      (
        status,
        record core { auth_manager = add_user core.auth_manager key_hash role; storage = st },
      )

  unfoldable pub authenticate : Core b e → Str → UserRole
  authenticate core raw_key = Auth.Manager.authenticate core.auth_manager raw_key
