-- ===== src/Server/Dispatch.antt =====
-- Server::process_request of client/net/server.cpp: the checks before the handlers, and the choice
-- of the handler.
use aevum.Prelude.{
  Bool, true, false, not, [], Option, none, some, Str, lit, str_eq, if◌then◌else◌, to_decimal,
}
use aevum.Util.RequestCache.{get_cached_response}
use aevum.Bson.{Bson}
use aevum.Ffi.{Ffi}
use aevum.Storage.{Engine}
use aevum.Auth.Role.{UserRole, none_role, admin}
use aevum.Core.Admin
use aevum.Server.{Json, Draws, Server, Reply}
use aevum.Server.Handlers.{
  error_response, health_response, denied_response, auth_failed_response, text_or, metrics_json,
  config_json, reply_cached, handle_insert, handle_find, handle_update, handle_count, handle_delete,
  handle_set_schema, handle_create_user,
}

-- role == UserRole::NONE and role == UserRole::ADMIN
abbrev pub is_none_role : UserRole → Bool
is_none_role none_role = true
is_none_role _ = false

abbrev pub is_admin : UserRole → Bool
is_admin admin = true
is_admin _ = false

module _ (b : Bson) (e : Engine) (ffi : Ffi) (j : Json) where
  -- An action that asks for the role ADMIN first.
  unfoldable pub admin_only : UserRole → Reply b e → Server b e → Reply b e
  admin_only role reply srv = if not (is_admin role) then (some denied_response, srv) else reply

  -- The chain of tests on the action, with the role that the request was authenticated to.
  unfoldable pub dispatch : Draws → Str → j.Elem → Str → Str → UserRole → Server b e → Reply b e
  unfolding admin_only
  dispatch draws request_hash doc action coll role srv =
      if str_eq action (lit "insert")
      then handle_insert b e ffi j draws request_hash doc coll srv
      else if str_eq action (lit "find")
      then handle_find b e ffi j draws request_hash doc coll srv
      else if str_eq action (lit "update")
      then handle_update b e ffi j draws request_hash doc coll srv
      else if str_eq action (lit "count")
      then handle_count b e ffi j draws request_hash doc coll srv
      else if str_eq action (lit "delete")
      then handle_delete b e ffi j draws request_hash doc coll srv
      else if str_eq action (lit "set_schema")
      then admin_only role (handle_set_schema b e ffi j doc coll srv) srv
      else if str_eq action (lit "metrics")
      then admin_only role (some (metrics_json srv.metrics draws.unix_time), srv) srv
      else if str_eq action (lit "config")
      then admin_only role (some (config_json srv.conn_config), srv) srv
      else if str_eq action (lit "create_user")
      then admin_only role (handle_create_user b e ffi j draws doc srv) srv
      else reply_cached b e ffi j draws request_hash (error_response (lit "Unknown action")) srv

  -- Behind the check of the `auth` field.
  unfoldable pub authorise : Draws → Str → j.Elem → Str → Option Str → Server b e → Reply b e
  authorise draws request_hash doc action none srv =
      (some (error_response (lit "'auth' field is missing or not a string")), srv)
  authorise draws request_hash doc action (some key) srv =
      let role = Admin.authenticate b e srv.db_core key in
      if is_none_role role
      then (some auth_failed_response, srv)
      else dispatch draws request_hash doc action (text_or [] (j.get_string doc (lit "collection")))
          role srv

  -- Behind the check of the `action` field.
  unfoldable pub act : Draws → Str → j.Elem → Option Str → Server b e → Reply b e
  act draws request_hash doc none srv =
      (some (error_response (lit "'action' field is missing or not a string")), srv)
  act draws request_hash doc (some action) srv =
      if str_eq action (lit "health")
      then (some health_response, srv)
      else authorise draws request_hash doc action (j.get_string doc (lit "auth")) srv

  -- Behind the parse.
  unfoldable pub handle_parsed : Draws → Str → Option j.Elem → Server b e → Reply b e
  handle_parsed draws request_hash none srv =
      (some (error_response (lit "Invalid JSON request")), srv)
  handle_parsed draws request_hash (some doc) srv =
      act draws request_hash doc (j.get_string doc (lit "action")) srv

  unfoldable pub request_key : Str → Str
  request_key request = to_decimal (j.hash request)

  -- Server::process_request
  unfoldable pub process_request : Draws → Str → Server b e → Reply b e
  unfolding request_key
  process_request draws request srv =
      if str_eq request (lit "{\"action\":\"health\"}")
      then (some health_response, srv)
      else let (cached, cache) =
          get_cached_response draws.lookup_time (request_key request) srv.request_cache in
        let srv' = record srv { request_cache = cache } in
        elim cached [
          | some response ↦ (some response, srv')
          | none ↦ handle_parsed draws (request_key request) (j.parse_json request) srv'
        ]
