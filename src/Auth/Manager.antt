-- ===== src/Auth/Manager.antt =====
-- db/auth/auth_manager.cpp: the cache from hashed keys to roles. Its lock makes each call atomic.
pub mod Laws
use aevum.Prelude.{Bool, Str, Map, Option, none, some, lookup, emplace, is_empty, if◌then◌else◌}
use aevum.Util.Hash.{djb2_string}
use aevum.Auth.Role.{UserRole, none_role}

pub record AuthManager : Type 0 where
  pub auth_cache : Map UserRole

unfoldable pub role_or_none : Option UserRole → UserRole
role_or_none none = none_role
role_or_none (some r) = r

unfoldable pub authenticate : AuthManager → Str → UserRole
unfolding role_or_none
authenticate m raw_key =
    if is_empty raw_key then none_role else role_or_none (lookup (djb2_string raw_key) m.auth_cache)

-- `emplace`: a key that is there keeps its role.
unfoldable pub add_user : AuthManager → Str → UserRole → AuthManager
add_user m hashed_key role = record { auth_cache = emplace hashed_key role m.auth_cache }

-- AuthManager::empty()
pub has_no_users : AuthManager → Bool
has_no_users m = is_empty m.auth_cache
