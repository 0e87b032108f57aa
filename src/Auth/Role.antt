-- ===== src/Auth/Role.antt =====
-- db/auth/role.hpp and db/auth/rbac.cpp: the roles, their names, and which action a role may take.
pub mod Laws
use aevum.Prelude.{Bool, true, false, ◌||◌, Str, str_eq, lit, if◌then◌else◌}

pub data UserRole : Type 0 where
  none_role read_only read_write admin : UserRole

-- to_string(UserRole)
unfoldable pub role_to_string : UserRole → Str
role_to_string read_only = lit "READ_ONLY"
role_to_string read_write = lit "READ_WRITE"
role_to_string admin = lit "ADMIN"
role_to_string none_role = lit "NONE"

unfoldable pub has_permission : UserRole → Str → Bool
has_permission none_role action = false
has_permission admin action = true
has_permission read_write action =
    str_eq action (lit "find")
    || str_eq action (lit "count")
    || str_eq action (lit "insert")
    || str_eq action (lit "update")
    || str_eq action (lit "upsert")
    || str_eq action (lit "delete")
has_permission read_only action = str_eq action (lit "find") || str_eq action (lit "count")

-- The tests of Core::load_all on a stored role: what is neither name stays READ_ONLY.
unfoldable pub stored_role : Str → UserRole
stored_role s =
    if str_eq s (lit "ADMIN")
    then admin
    else if str_eq s (lit "READ_WRITE")
    then read_write
    else read_only

-- The tests of the server's `create_user`: what is no name of a role is NONE.
unfoldable pub requested_role : Str → UserRole
requested_role s =
    if str_eq s (lit "ADMIN")
    then admin
    else if str_eq s (lit "READ_WRITE")
    then read_write
    else if str_eq s (lit "READ_ONLY")
    then read_only
    else none_role
