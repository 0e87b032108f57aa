-- ===== src/Server.antt =====
-- client/net/server.cpp: the request handler. simdjson, std::hash and the clocks are parameters.
-- `none` as a reply is an exception that leaves the handler: nothing above it in the thread of the
-- connection catches one.
pub mod Handlers
pub mod Dispatch
pub mod Access
pub mod Dedup
pub mod Net
pub mod Sockets
use aevum.Prelude.{ℕ, ℤ, Option, Str, Bool}
use aevum.Bson.{Bson}
use aevum.Storage.{Engine}
use aevum.Core.{Core}
use aevum.Util.RequestCache.{RequestCache}

-- simdjson, as the handler uses it.
pub record Json : Type 1 where
  pub Elem : Type 0
  -- parser.parse, where `none` is a simdjson_error
  pub parse_json : Str → Option Elem
  -- doc[key].get_string() and doc[key].get_int64(), where `none` is any error
  pub get_string : Elem → Str → Option Str
  pub get_int64 : Elem → Str → Option ℤ
  -- doc[key].is_object()
  pub is_object : Elem → Str → Bool
  -- simdjson::to_string(doc[key]), which throws where there is no such field
  pub field_text : Elem → Str → Option Str
  -- std::hash<std::string_view>
  pub hash : Str → ℕ

-- What one request draws from the clocks and the random engine.
pub record Draws : Type 0 where
  pub lookup_time : ℕ
  pub store_time : ℕ
  pub unix_time : ℕ
  pub word1 : ℕ
  pub word2 : ℕ

-- MetricsCollector; the program reads the counters and nowhere changes them.
pub record Metrics : Type 0 where
  pub total_requests : ℕ
  pub total_errors : ℕ
  pub active_connections : ℕ
  pub total_bytes_received : ℕ
  pub total_bytes_sent : ℕ
  pub startup_timestamp : ℕ

-- ConnectionPoolConfig
pub record ConnectionConfig : Type 0 where
  pub max_connections_total : ℕ
  pub max_connections_per_ip : ℕ
  pub max_idle_timeout_sec : ℕ
  pub max_request_size_bytes : ℕ
  pub request_timeout_sec : ℕ

pub record Server (b : Bson) (e : Engine) : Type 0 where
  pub db_core : Core b e
  pub request_cache : RequestCache
  pub metrics : Metrics
  pub conn_config : ConnectionConfig

abbrev pub Reply : Bson → Engine → Type 0
Reply b e = Option Str × Server b e
