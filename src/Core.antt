-- ===== src/Core.antt =====
-- db/core: the engine that ties storage, users, schemas and indexes together. Each operation that
-- holds the lock of the engine is one function; `upsert` is two of them, one after the other.
pub mod Read
pub mod Write
pub mod Batch
pub mod Admin
pub mod Load
pub mod Mirror
pub mod Spec
pub mod Users
pub mod Restart
pub mod Recovery
use aevum.Bson.{Bson}
use aevum.Storage.{Engine, Store}
use aevum.Auth.Manager.{AuthManager}
use aevum.Schema.{SchemaManager}
use aevum.Index.Manager.{IndexManager}

pub record Core (b : Bson) (e : Engine) : Type 0 where
  pub storage : Store e
  pub auth_manager : AuthManager
  pub schema_manager : SchemaManager b
  pub index_manager : IndexManager b
