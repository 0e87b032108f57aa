-- ===== src/Tests/RestartRuns.antt =====
-- The theorems of users, schemas and loading at an engine over tables in memory.
use aevum.Prelude.{◌≡◌, refl, [], ◌∷◌, map, some, Str, codes, lit, lookup, str_eq, pos, arith}
use aevum.Util.Hash.{djb2_string}
use aevum.Bson.{utf8}
use aevum.Auth.Role.{none_role, read_only, read_write, admin, role_to_string}
use aevum.Auth.Manager.{add_user}
use aevum.Schema.{transform, persistent_schema, get_schema}
use aevum.Schema.Laws.{rule}
use aevum.Index.Manager.{get_documents_by_secondary_index}
use aevum.Core.{Core}
use aevum.Core.Admin.{user_doc, create_user, authenticate}
use aevum.Core.Load.{load_user, load_schemas, load_named}
use aevum.Core.Users.{authenticate-create_user, authenticate_collision, load_user-user_doc}
use aevum.Core.Restart.{load_schemas-extra_rule, load_named-before_definitions}
use aevum.Tests.Memory.{Node, nil, text, plain, small, memory, memory_laws}
use aevum.Tests.Disk.{disk}
use aevum.Tests.CoreRuns.{new_core}

abbrev users : Str
users = codes "users"

-- A reader with the key `ab`.
abbrev one_user : Core memory disk
one_user = record new_core {
  auth_manager = record { auth_cache = (djb2_string (codes "ab"), read_only) ∷ [] };
}

authenticate-create_user_example :
    authenticate memory disk
      (create_user memory disk 1 2 (codes "ab") read_write new_core).1
      (codes "ab")
    ≡ read_write
unfolding djb2_string str_eq lookup
authenticate-create_user_example =
    authenticate-create_user memory disk 1 2 (codes "ab") read_write new_core (codes "ab") refl
      (λ h. cc)

-- The key `bA` opens the account of the key `ab`.
authenticate_collision_example :
    authenticate memory disk
      (create_user memory disk 1 2 (codes "ab") admin new_core).1
      (codes "bA")
    ≡ admin
unfolding lookup
authenticate_collision_example =
    authenticate_collision memory disk 1 2 b'a' b'A' [] admin new_core (omega arith) (omega arith)
      refl

load_user-user_doc_example :
    load_user memory
      (user_doc memory (codes "id") (codes "177") (role_to_string none_role))
      new_core.auth_manager
    ≡ add_user new_core.auth_manager (codes "177") read_only
load_user-user_doc_example =
    load_user-user_doc memory memory_laws (codes "id") (codes "177") none_role new_core.auth_manager
      (omega arith) refl

-- The schema { "name": "string", "limit": 7 }.
abbrev name_schema : Node
name_schema = text (codes "name") (codes "string") (plain (codes "limit") (small (pos 7)) nil)

load_schemas-extra_rule_example :
    (get_schema memory
        (load_schemas memory
          (persistent_schema memory users (transform memory name_schema) ∷ [])
          (record { schemas = [] }))
        users
      ≡ some (persistent_schema memory users (transform memory name_schema)))
    × (memory.entries (persistent_schema memory users (transform memory name_schema))
        ≡ (lit "collection", utf8 users) ∷ map (rule memory) (memory.entries name_schema))
load_schemas-extra_rule_example =
    load_schemas-extra_rule memory memory_laws users name_schema (record { schemas = [] })
      (omega arith)

load_named-before_definitions_example :
    get_documents_by_secondary_index memory
      (load_named memory disk
        (lit "_indexes")
        (load_named memory disk (codes "Users") new_core)).index_manager
      (codes "Users")
      (codes "city")
      (codes "rome")
    ≡ []
unfolding lit str_eq lookup
load_named-before_definitions_example =
    load_named-before_definitions memory disk (codes "Users") new_core (codes "city") (codes "rome")
      refl refl
