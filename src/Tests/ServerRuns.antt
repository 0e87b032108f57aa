-- ===== src/Tests/ServerRuns.antt =====
-- The theorems of the server at one request.
use aevum.Prelude.{
  ◌≡◌, refl, false, true, not, [], ◌∷◌, List, Option, none, some, Str, Map, codes, lit, lookup,
  str_eq, inl, inr, pos, arith,
}
use aevum.Util.RequestCache.{is_fresh}
use aevum.Auth.Role.{read_only, read_write, admin, has_permission}
use aevum.Auth.Manager
use aevum.Core.Admin.{authenticate}
use aevum.Server.{Json, Draws, Server, Reply}
use aevum.Server.Handlers.{handle_insert, denied_response}
use aevum.Server.Dispatch.{dispatch, request_key, process_request}
use aevum.Server.Access.{
  process_request_anonymous, dispatch_denied, dispatch-ignores_role, IsAnonymous,
}
use aevum.Util.RequestCache.{get_cached_response}
use aevum.Server.Dedup.Twice.{process_request-process_request}
use aevum.Util.Hash.{djb2_string}
use aevum.Tests.Memory.{memory}
use aevum.Tests.Disk.{disk}
use aevum.Tests.CoreRuns.{new_core, answers}

abbrev insert_request : Map Str
insert_request =
    (codes "action", codes "insert") ∷ (codes "auth", codes "ab") ∷ (codes "data", codes "a") ∷ []

-- Every text parses to the one request.
abbrev pub one_request : Json
one_request = record {
  Elem = Map Str;
  parse_json = λ s. some insert_request;
  get_string = λ d k. lookup k d;
  get_int64 = λ d k. none;
  is_object = λ d k. false;
  field_text = λ d k. lookup k d;
  hash = λ s. 7;
}

abbrev pub first_draws : Draws
first_draws = record { lookup_time = 0; store_time = 5; unix_time = 0; word1 = 1; word2 = 2 }

abbrev later_draws : Draws
later_draws = record {
  lookup_time = 900000000;
  store_time = 900000001;
  unix_time = 0;
  word1 = 3;
  word2 = 4;
}

abbrev pub new_server : Server memory disk
new_server = record {
  db_core = new_core;
  request_cache = record { cache = []; cache_window_ms = 1000 };
  metrics = record {
    total_requests = 0;
    total_errors = 0;
    active_connections = 0;
    total_bytes_received = 0;
    total_bytes_sent = 0;
    startup_timestamp = 0;
  };
  conn_config = record {
    max_connections_total = 1000;
    max_connections_per_ip = 100;
    max_idle_timeout_sec = 300;
    max_request_size_bytes = 8388608;
    request_timeout_sec = 30;
  };
}

new_server-IsAnonymous : (d : Map Str) → IsAnonymous memory disk answers one_request new_server d
unfolding authenticate Manager.authenticate lookup
new_server-IsAnonymous d key h = ground arith

process_request_anonymous_example :
    (process_request memory disk answers one_request first_draws (codes "{}") new_server).1.db_core
    ≡ new_core
process_request_anonymous_example =
    process_request_anonymous memory disk answers one_request first_draws (codes "{}") new_server
      (λ d p. new_server-IsAnonymous d)

dispatch_denied_example :
    dispatch memory disk answers one_request first_draws
      (codes "7")
      insert_request
      (lit "metrics")
      []
      read_write
      new_server
    ≡ (some denied_response, new_server)
dispatch_denied_example =
    dispatch_denied memory disk answers one_request first_draws (codes "7") insert_request
      (lit "metrics") [] read_write new_server (inr (inl refl)) refl

dispatch-ignores_role_example :
    (dispatch memory disk answers one_request first_draws
        (codes "7")
        insert_request
        (lit "insert")
        (codes "users")
        read_only
        new_server
      ≡ dispatch memory disk answers one_request first_draws
          (codes "7")
          insert_request
          (lit "insert")
          (codes "users")
          admin
          new_server)
    × (has_permission read_only (lit "insert") ≡ false)
dispatch-ignores_role_example =
    dispatch-ignores_role memory disk answers one_request first_draws (codes "7") insert_request
      (lit "insert") (codes "users") read_only admin new_server (inl refl)

-- The server with a user of the key `ab`.
abbrev user_server : Server memory disk
user_server = record new_server {
  db_core = record new_core {
    auth_manager = record { auth_cache = (djb2_string (codes "ab"), read_write) ∷ [] };
  };
}

-- The server after the request was answered once.
abbrev answered_server : Reply memory disk
answered_server =
    process_request memory disk answers one_request first_draws (codes "{}") user_server

process_request-process_request_example :
    process_request memory disk answers one_request later_draws (codes "{}") answered_server.1
    ≡ (some (codes "{\"status\":\"ok\", \"_id\":\"a\"}"), answered_server.1)
unfolding str_eq lit is_fresh dispatch handle_insert lookup aevum.Bson.parse aevum.Core.Write.insert
    aevum.Schema.validate aevum.Storage.put aevum.Bson.doc_empty aevum.Bson.find_utf8
    aevum.Prelude.c_str process_request get_cached_response authenticate Manager.authenticate
    djb2_string aevum.Server.Dispatch.handle_parsed aevum.Server.Dispatch.act
    aevum.Server.Dispatch.authorise
process_request-process_request_example =
    process_request-process_request memory disk answers one_request first_draws later_draws
      (codes "{}") insert_request (lit "insert") (codes "ab")
      (codes "{\"status\":\"ok\", \"_id\":\"a\"}") user_server (inl refl) refl refl refl refl refl
      refl refl refl
