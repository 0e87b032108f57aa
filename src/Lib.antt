-- ===== src/Lib.antt =====
-- AevumDB: a document database server. A client sends a JSON request over TCP; the server
-- authenticates it, remembers the answers to recent requests, and hands the action to the core,
-- which keeps documents in WiredTiger tables, mirrors them in indexes in memory, holds them
-- against schemas and leaves queries to an engine behind a C interface. The code is under
-- src/aevum of the repository, where the paths below start.
--
-- Which file models which part:
-- - Prelude: texts as lists of bytes (`std::string`; `c_str` cuts at the first NUL as a C string
--   does), maps as association lists (`std::unordered_map`: `insert` assigns in place, `emplace`
--   keeps what is there), sets as lists, decimal numbers.
-- - Util: util/status.hpp (Status), util/hash (Hash), util/uuid/v4.cpp (Uuid),
--   util/deduplication/request_cache.hpp (RequestCache), util/string (Strings),
--   util/concurrency: thread_pool.hpp and thread_pool.cpp (Pool), concurrent_queue.hpp
--   (ConcurrentQueue), wait_group.cpp (WaitGroup), spinlock.cpp (Spinlock); util/memory:
--   arena_allocator.cpp (Arena), object_pool.hpp (ObjectPool); util/time/stopwatch.cpp (Stopwatch);
--   util/log (Logger).
-- - Bson: bson/doc/document.cpp, bson/json/parser.cpp and bson/json/serializer.cpp. libbson is the
--   interface `Bson`, and `BsonLaws` is what its manual says of building and searching documents.
--   Ownership is which document owns which `bson_t`. Builder: bson/builder.cpp; Iterator:
--   bson/doc/iterator.cpp, over libbson's bson_iter_t as the interface `IterApi`.
-- - Storage: db/storage/wiredtiger_store.cpp. WiredTiger and the file system are the interface
--   `Engine`; `EngineLaws` is what a cursor opened afterwards reads.
-- - Ffi: db/ffi.hpp, the interface of the query engine. Its answers are any texts and counts.
-- - Index: db/index: Primary, Secondary, Persistor and Manager (primary_indexer.cpp,
--   secondary_indexer.cpp, index_persistor.cpp, index_manager.cpp).
-- - Schema: db/schema: schema_manager.cpp and validator.cpp.
-- - Auth: db/auth: role.hpp and rbac.cpp (Role), auth_manager.cpp (Manager).
-- - Core: db/core/core.cpp: Read (find, count), Write (insert, remove), Batch (update, upsert),
--   Admin (set_schema, create_index, create_user, authenticate), Load (load_all and startup).
--   Core.Spec is what the engine promises of inserts, removals and updates, seen by id;
--   Core.Recovery is what a restart finds of the documents.
-- - Server: Server::process_request of client/net/server.cpp: Handlers has one function for each
--   action, Dispatch the order of the tests. simdjson and `std::hash` are the interface `Json`.
--   Net is the loop of Server::handle_client over the requests of a connection, with the socket
--   calls as the interface `Net`; Sockets is what run, stop and handle_client do to descriptors.
-- - Client: client/aevum_client.cpp, the payloads; Connection: client/net/connection.cpp, with the
--   socket calls as the interface `Os`; Session: the client with its connection.
-- - Shell: shell/parser/command_parser.cpp (the search for a matching brace, and Command),
--   shell/repl/repl.cpp (Repl) and shell/main.cpp (Main). simdjson and the regular expression
--   are the interface `Reader`.
-- - Daemon: main.cpp, the arguments and the configuration file; `std::stoi` is an argument.
-- - Tests: values of the interfaces that meet their laws (Memory, Disk), and the theorems applied
--   to them.
--
-- How state is kept: an operation takes the state it is called on and returns its result with
-- the state after. Where an operation fails half way, the state is the one that the calls before
-- left. An exception that the server does not catch is an answer `none`. Random words and the
-- readings of the clock are arguments. The locks make each operation atomic, so that operations
-- follow one another and no lock has a model. The thread pool is a machine whose turns and
-- notifications come in any order. What the other parts write to the log is left out.
--
-- A `uint64_t` or `size_t` wraps at 2^64, and a 64-bit limit of a query is narrowed to 32 bits as
-- the call of the query engine does it. Loops run over lists and are recursion on them. Fuel is
-- given to four: the printing of decimal numbers gets the number itself plus one and divides it in
-- each round, the splitting of a text gets its length plus one and shortens it in each round, and
-- the loop of `send` calls gets the length of the response plus one, where each call takes a byte
-- at least; the loop over a document's elements is given any fuel, and two more than there are
-- elements is enough. The loop of a connection runs for as many rounds as there are draws
-- of random words, and each round has the bytes of one `recv`, 16383 at most.
--
-- Not modelled: the signal thread of main.cpp, the names of threads, the query engine in Rust (ffi),
-- the timestamps, the memory of the query engine's answers, so also that Core::update frees an
-- answer with an empty list and a modified count other than 0 twice, and the build without
-- WiredTiger.
pub mod Prelude
pub mod Util
pub mod Auth
pub mod Bson
pub mod Storage
pub mod Index
pub mod Ffi
pub mod Schema
pub mod Core
pub mod Daemon
pub mod Server
pub mod Client
pub mod Shell
pub mod Tests
