-- ===== src/Auth.antt =====
-- db/auth: roles, the permission table, and the cache of hashed keys.
pub mod Role
pub mod Manager
