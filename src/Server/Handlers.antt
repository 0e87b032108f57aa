-- ===== src/Server/Handlers.antt =====
-- Server::process_request of client/net/server.cpp, a handler for each action.
use aevum.Prelude.{
  ℕ, ◌-◌, ◌/◌, ◌++◌, Option, none, some, Str, lit, if◌then◌else◌, ℤ, pos, to_decimal, int_to_string,
  ◌+◌, ◌%◌, ◌^◌,
}
use aevum.Util.Status.{Status, is_ok}
use aevum.Util.RequestCache.{cache_response}
use aevum.Bson.{Bson, parse}
use aevum.Ffi.{Ffi}
use aevum.Storage.{Engine}
use aevum.Auth.Role.{requested_role}
use aevum.Core.Read
use aevum.Core.Read.{json_array}
use aevum.Core.Write
use aevum.Core.Batch
use aevum.Core.Admin
use aevum.Server.{Json, Draws, Metrics, ConnectionConfig, Server, Reply}

unfoldable pub error_response : Str → Str
error_response message = lit "{\"status\":\"error\", \"message\":\"" ++ (message ++ lit "\"}")

unfoldable pub health_response : Str
health_response = lit "{\"status\":\"ok\",\"message\":\"AevumDB is healthy\"}"

unfoldable pub denied_response : Str
denied_response = lit "{\"status\":\"error\", \"message\":\"Permission denied\"}"

unfoldable pub auth_failed_response : Str
auth_failed_response = lit "{\"status\":\"error\", \"message\":\"Authentication failed\"}"

unfoldable pub text_or : Str → Option Str → Str
text_or d none = d
text_or d (some s) = s

int_or_zero : Option ℤ → ℤ
int_or_zero none = pos 0
int_or_zero (some z) = z

-- The object under the key as a text, and else `{}`.
unfoldable pub object_text : (j : Json) → j.Elem → Str → Option Str
object_text j doc key = if j.is_object doc key then j.field_text doc key else some (lit "{}")

-- { ..., "name": n } in the two JSON documents of numbers.
number_field : Str → ℕ → Str
number_field name n = lit "\"" ++ (name ++ (lit "\":" ++ to_decimal n))

unfoldable pub metrics_json : Metrics → ℕ → Str
unfolding number_field
metrics_json m now =
    lit "{\"status\":\"ok\",\"metrics\":{"
    ++ (number_field (lit "total_requests") m.total_requests
        ++ (lit ","
            ++ (number_field (lit "total_errors") m.total_errors
                ++ (lit ","
                    ++ (number_field (lit "active_connections") m.active_connections
                        ++ (lit ","
                            ++ (number_field (lit "bytes_received") m.total_bytes_received
                                ++ (lit ","
                                    ++ (number_field (lit "bytes_sent") m.total_bytes_sent
                                        ++ (lit ","
                                            ++ (number_field (lit "uptime_seconds")
                                                  ((now + (2 ^ 64 - m.startup_timestamp)) % 2 ^ 64)
                                                ++ lit "}}")))))))))))

unfoldable pub config_json : ConnectionConfig → Str
unfolding number_field
config_json c =
    lit "{\"status\":\"ok\",\"config\":{"
    ++ (number_field (lit "max_connections_total") c.max_connections_total
        ++ (lit ","
            ++ (number_field (lit "max_connections_per_ip") c.max_connections_per_ip
                ++ (lit ","
                    ++ (number_field (lit "max_idle_timeout_sec") c.max_idle_timeout_sec
                        ++ (lit ","
                            ++ (number_field (lit "max_request_size_mb")
                                  (c.max_request_size_bytes / 1048576)
                                ++ (lit ","
                                    ++ (number_field (lit "request_timeout_sec")
                                          c.request_timeout_sec
                                        ++ lit "}}")))))))))

module _ (b : Bson) (e : Engine) (ffi : Ffi) (j : Json) where
  -- The response is kept for the request's hash, and sent.
  abbrev pub reply_cached : Draws → Str → Str → Server b e → Reply b e
  reply_cached draws request_hash response srv = (
    some response,
    record srv {
      request_cache = cache_response draws.store_time request_hash response srv.request_cache;
    },
  )

  insert_response : Status × Str → Str
  unfolding error_response
  insert_response (status, id) =
      if is_ok status
      then lit "{\"status\":\"ok\", \"_id\":\"" ++ (id ++ lit "\"}")
      else error_response status.message

  unfoldable pub insert_parsed : Draws → Str → Str → Option b.Doc → Server b e → Reply b e
  unfolding insert_response
  insert_parsed draws request_hash coll none srv =
      reply_cached draws request_hash (error_response (lit "Invalid BSON data for insert")) srv
  insert_parsed draws request_hash coll (some doc) srv =
      let (result, core) = Write.insert b e ffi draws.word1 draws.word2 coll doc srv.db_core in
      reply_cached draws request_hash (insert_response result) (record srv { db_core = core })

  unfoldable pub handle_insert : Draws → Str → j.Elem → Str → Server b e → Reply b e
  unfolding insert_parsed
  handle_insert draws request_hash doc coll srv = elim (j.field_text doc (lit "data")) [
    | none ↦ (none, srv)
    | some text ↦ insert_parsed draws request_hash coll (parse b text).1 srv
  ]

  unfoldable pub find_with :
      Draws → Str → j.Elem → Str → Option Str → Option Str → Option Str → Server b e → Reply b e
  unfolding int_or_zero
  find_with draws request_hash doc coll (some query) (some sort) (some projection) srv =
      let docs =
        Read.find b e ffi srv.db_core coll query sort projection
          (int_or_zero (j.get_int64 doc (lit "limit")))
          (int_or_zero (j.get_int64 doc (lit "skip"))) in
      reply_cached draws request_hash
        (lit "{\"status\":\"ok\", \"data\":" ++ (json_array b docs ++ lit "}")) srv
  find_with draws request_hash doc coll _ _ _ srv = (none, srv)

  unfoldable pub handle_find : Draws → Str → j.Elem → Str → Server b e → Reply b e
  unfolding find_with object_text
  handle_find draws request_hash doc coll srv =
      find_with draws request_hash doc coll (object_text j doc (lit "query"))
        (object_text j doc (lit "sort")) (object_text j doc (lit "projection")) srv

  unfoldable pub update_with : Draws → Str → Str → Option Str → Option Str → Server b e → Reply b e
  unfolding error_response
  update_with draws request_hash coll (some query) (some change) srv =
      let ((status, n), core) = Batch.update b e ffi coll query change srv.db_core in
      reply_cached draws request_hash
        (if is_ok status
          then lit "{\"status\":\"ok\", \"updated_count\":" ++ (int_to_string n ++ lit "}")
          else error_response status.message)
        (record srv { db_core = core })
  update_with draws request_hash coll _ _ srv = (none, srv)

  unfoldable pub handle_update : Draws → Str → j.Elem → Str → Server b e → Reply b e
  unfolding update_with object_text
  handle_update draws request_hash doc coll srv =
      update_with draws request_hash coll (object_text j doc (lit "query"))
        (object_text j doc (lit "update")) srv

  unfoldable pub handle_count : Draws → Str → j.Elem → Str → Server b e → Reply b e
  unfolding object_text
  handle_count draws request_hash doc coll srv = elim (object_text j doc (lit "query")) [
    | none ↦ (none, srv)
    | some query ↦
        reply_cached draws request_hash
          (lit "{\"status\":\"ok\", \"count\":"
            ++ (int_to_string (Read.count b e ffi srv.db_core coll query) ++ lit "}"))
          srv
  ]

  unfoldable pub delete_with : Draws → Str → Str → Str → Server b e → Reply b e
  unfolding error_response
  delete_with draws request_hash coll query srv =
      let ((status, n), core) = Write.remove b e ffi coll query srv.db_core in
      reply_cached draws request_hash
        (if is_ok status
          then lit "{\"status\":\"ok\", \"deleted_count\":" ++ (to_decimal n ++ lit "}")
          else error_response status.message)
        (record srv { db_core = core })

  unfoldable pub handle_delete : Draws → Str → j.Elem → Str → Server b e → Reply b e
  unfolding delete_with object_text
  handle_delete draws request_hash doc coll srv = elim (object_text j doc (lit "query")) [
    | none ↦ (none, srv)
    | some query ↦ delete_with draws request_hash coll query srv
  ]

  status_response : Status → Str
  unfolding error_response
  status_response status =
      if is_ok status then lit "{\"status\":\"ok\"}" else error_response status.message

  schema_parsed : Str → Option b.Doc → Server b e → Reply b e
  unfolding status_response
  schema_parsed coll none srv = (some (error_response (lit "Invalid BSON schema")), srv)
  schema_parsed coll (some schema) srv =
      let (status, core) = Admin.set_schema b e coll schema srv.db_core in
      (some (status_response status), record srv { db_core = core })

  unfoldable pub handle_set_schema : j.Elem → Str → Server b e → Reply b e
  unfolding schema_parsed
  handle_set_schema doc coll srv = elim (j.field_text doc (lit "schema")) [
    | none ↦ (none, srv)
    | some text ↦ schema_parsed coll (parse b text).1 srv
  ]

  user_with : Draws → Option Str → Option Str → Server b e → Reply b e
  unfolding status_response
  user_with draws (some key) (some role) srv =
      let (status, core) =
        Admin.create_user b e draws.word1 draws.word2 key (requested_role role) srv.db_core in
      (some (status_response status), record srv { db_core = core })
  user_with draws _ _ srv =
      (some (error_response (lit "'key' and 'role' fields are required for create_user")), srv)

  unfoldable pub handle_create_user : Draws → j.Elem → Server b e → Reply b e
  unfolding user_with
  handle_create_user draws doc srv =
      user_with draws (j.get_string doc (lit "key")) (j.get_string doc (lit "role")) srv
