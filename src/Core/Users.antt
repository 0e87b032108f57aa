-- ===== src/Core/Users.antt =====
-- Users: what `authenticate` answers after `create_user`, and after a restart that loads what
-- `create_user` stored.
use aevum.Prelude.{
  ℕ, ◌+◌, ◌<◌, ◌≡◌, refl, ◌≢◌, ◌∙◌, ap, false, [], ◌∷◌, none, some, Str, lit, c_str, c_str_lem,
  NoNul, str_eq, str_eq_refl, is_empty, lookup, if◌then◌else◌, arith,
}
use aevum.Util.Hash.{djb2_string}
use aevum.Util.Hash.Laws.{djb2_collision}
use aevum.Bson.{Bson, BsonLaws, utf8, find_utf8, utf8_of}
use aevum.Storage.{Engine}
use aevum.Auth.Role.{UserRole, none_role, read_only, read_write, admin, role_to_string}
use aevum.Auth.Role.Laws.{reloaded, stored_role-role_to_string}
use aevum.Auth.Manager.{AuthManager, add_user, role_or_none}
use aevum.Auth.Manager.Laws.{authenticate-add_user}
use aevum.Core.{Core}
use aevum.Core.Admin.{user_doc, create_user, authenticate}
use aevum.Core.Load.{load_user}

module _ (b : Bson) (e : Engine) where
  -- No user has the hash of the key.
  abbrev pub IsUnknown : Core b e → Str → Type 0
  IsUnknown core key = lookup (djb2_string key) core.auth_manager.auth_cache ≡ none

  -- Where no user has the hash of the key, a new user's key is accepted with the role given, as
  -- is any other non-empty key with its hash; a non-empty key with another hash is accepted as
  -- before.
  pub authenticate-create_user :
      (word1 word2 : ℕ) (key : Str) (role : UserRole) (core : Core b e) (asked : Str)
      → IsUnknown core key
      → asked ≢ []
      → authenticate b e (create_user b e word1 word2 key role core).1 asked ≡ (
          if str_eq (djb2_string key) (djb2_string asked)
          then role
          else authenticate b e core asked)
  unfolding create_user authenticate role_or_none
  authenticate-create_user p q key role core asked unknown ne =
      ground (arith, authenticate-add_user core.auth_manager (djb2_string key) role asked ne)

  -- A user with a non-empty key that is created again keeps the first role in the running
  -- engine.
  pub authenticate-create_user_again :
      (word1 word2 : ℕ) (key : Str) (first second : UserRole) (core : Core b e)
      → lookup (djb2_string key) core.auth_manager.auth_cache ≡ some first
      → key ≢ []
      → authenticate b e (create_user b e word1 word2 key second core).1 key ≡ first
  unfolding create_user authenticate role_or_none
  authenticate-create_user_again p q key first second core had ne = ground (
    arith,
    authenticate-add_user core.auth_manager (djb2_string key) second key ne,
    str_eq_refl (djb2_string key),
  )

  -- A user whose key starts with two bytes, the first below 127 and the second from 33 to 127,
  -- may log in with a key that is not the one created: with the first byte one up and the
  -- second 33 down. No user had the hash of the key before.
  pub authenticate_collision :
      (word1 word2 : ℕ) (x y : ℕ) (rest : Str) (role : UserRole) (core : Core b e)
      → x + 1 < 128
      → y + 33 < 128
      → IsUnknown core (x ∷ (y + 33) ∷ rest)
      → authenticate b e
          (create_user b e word1 word2 (x ∷ (y + 33) ∷ rest) role core).1
          ((x + 1) ∷ y ∷ rest)
        ≡ role
  unfolding djb2_string
  authenticate_collision p q x y rest role core hx hy unknown = ground (
    arith,
    authenticate-create_user p q (x ∷ (y + 33) ∷ rest) role core ((x + 1) ∷ y ∷ rest) unknown
        (λ h. cc),
    djb2_collision x y rest hx hy,
    str_eq_refl (djb2_string (x ∷ (y + 33) ∷ rest)),
  )

role_text : (r : UserRole) → c_str (role_to_string r) ≡ role_to_string r
unfolding role_to_string lit c_str
role_text none_role = refl
role_text read_only = refl
role_text read_write = refl
role_text admin = refl

module _ (b : Bson) (laws : BsonLaws b) where
  three_fields :
      (id hash role : Str)
      → b.entries (user_doc b id hash role)
        ≡ (lit "_id", utf8 (c_str id))
          ∷ (lit "key_hash", utf8 (c_str hash))
          ∷ (lit "role", utf8 (c_str role))
          ∷ []
  unfolding user_doc
  three_fields id hash role = simp (laws.entries-append_utf8, laws.entries-fresh)

  find_hash :
      (id hash role : Str)
      → find_utf8 b (user_doc b id hash role) (lit "key_hash") ≡ some (c_str hash)
  unfolding find_utf8 lit str_eq lookup
  find_hash id hash role = ap (utf8_of b) (
      laws.find_field-lookup _ (lit "key_hash")
      ∙ ap (lookup (lit "key_hash")) (three_fields id hash role))

  find_role :
      (id hash role : Str) → find_utf8 b (user_doc b id hash role) (lit "role") ≡ some (c_str role)
  unfolding find_utf8 lit str_eq lookup
  find_role id hash role =
      ap (utf8_of b) (
        laws.find_field-lookup _ (lit "role")
        ∙ ap (lookup (lit "role")) (three_fields id hash role))

  -- A user that was stored under a role, with a hash that is not empty and holds no NUL, is
  -- loaded under that role, but a user with the role NONE is loaded as READ_ONLY.
  pub load_user-user_doc :
      (id hash : Str) (role : UserRole) (m : AuthManager)
      → NoNul hash
      → is_empty hash ≡ false
      → load_user b (user_doc b id hash (role_to_string role)) m ≡ add_user m hash (reloaded role)
  unfolding load_user
  load_user-user_doc id hash role m clean ne =
      rw
        (
          find_hash id hash (role_to_string role),
          find_role id hash (role_to_string role),
          c_str_lem hash clean,
          role_text role,
        )
        (ground (arith, ne, c_str_lem hash clean, role_text role, stored_role-role_to_string role))
