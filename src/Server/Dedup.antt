-- ===== src/Server/Dedup.antt =====
-- A request that comes again while its response is fresh.
pub mod Twice
use aevum.Prelude.{
  ℕ, ◌≡◌, refl, ◌⊎◌, true, false, Option, none, some, Str, lit, str_eq, lookup, lookup-insert_self,
  arith, Option-cases, inl, inr,
}
use aevum.Util.RequestCache.{is_fresh, get_cached_response, cache_response}
use aevum.Bson.{Bson, parse}
use aevum.Ffi.{Ffi}
use aevum.Storage.{Engine}
use aevum.Auth.Role.{UserRole}
use aevum.Server.{Json, Draws, Server, Reply}
use aevum.Server.Handlers.{
  reply_cached, handle_insert, insert_parsed, handle_find, find_with, handle_update, update_with,
  handle_count, handle_delete, object_text,
}
use aevum.Server.Dispatch.{dispatch, request_key, process_request}

-- An action whose response is kept.
abbrev pub IsKept : Str → Type 0
IsKept a =
    (a ≡ lit "insert")
    ⊎ ((a ≡ lit "find") ⊎ ((a ≡ lit "update") ⊎ ((a ≡ lit "count") ⊎ (a ≡ lit "delete"))))

module _ (b : Bson) (e : Engine) where
  -- If the reply is a response, the cache holds it, under the request's hash and the time.
  record Remembers (time : ℕ) (h : Str) (window : ℕ) (r : Reply b e) : Type 0 where
    kept :
        (response : Str)
        → r.0 ≡ some response
        → lookup h r.1.request_cache.cache ≡ some (record { response = response; timestamp = time })
    same_window : r.1.request_cache.cache_window_ms ≡ window

  no_reply-Remembers :
      (time : ℕ) (h : Str) (srv : Server b e)
      → Remembers time h srv.request_cache.cache_window_ms (none, srv)
  no_reply-Remembers time h srv = record { kept = λ response p. cc; same_window = refl }

module _ (b : Bson) (e : Engine) (ffi : Ffi) (j : Json) where
  reply_cached-Remembers :
      (draws : Draws) (h response : Str) (srv : Server b e)
      → Remembers b e draws.store_time h srv.request_cache.cache_window_ms
          (reply_cached b e ffi j draws h response srv)
  unfolding cache_response
  reply_cached-Remembers draws h response srv = record {
    kept = λ other p. ground (
      arith,
      p,
      lookup-insert_self h (record { response = response; timestamp = draws.store_time })
          srv.request_cache.cache,
    );
    same_window = refl;
  }

  insert-Remembers :
      (draws : Draws) (h : Str) (doc : j.Elem) (coll : Str) (srv : Server b e)
      → Remembers b e draws.store_time h srv.request_cache.cache_window_ms
          (handle_insert b e ffi j draws h doc coll srv)
  unfolding handle_insert
  insert-Remembers draws h doc coll srv = elim (Option-cases (j.field_text doc (lit "data"))) [
    | inl x ↦ rw (x, handle_insert) (no_reply-Remembers b e draws.store_time h srv)
    | inr (text, x) ↦ rw (x, handle_insert) (parsed (parse b text).1)
  ]
    where
      parsed :
          (d : Option b.Doc)
          → Remembers b e draws.store_time h srv.request_cache.cache_window_ms
              (insert_parsed b e ffi j draws h coll d srv)
      parsed none = reply_cached-Remembers draws h _ srv
      parsed (some d) = reply_cached-Remembers draws h _ (record srv { db_core = _ })

  find_parts :
      (draws : Draws) (h : Str) (doc : j.Elem) (coll : Str) (q s p : Option Str) (srv : Server b e)
      → Remembers b e draws.store_time h srv.request_cache.cache_window_ms
          (find_with b e ffi j draws h doc coll q s p srv)
  unfolding find_with
  find_parts draws h doc coll (some q) (some s) (some p) srv = reply_cached-Remembers draws h _ srv
  find_parts draws h doc coll (some q) (some s) none srv =
      no_reply-Remembers b e draws.store_time h srv
  find_parts draws h doc coll (some q) none p srv = no_reply-Remembers b e draws.store_time h srv
  find_parts draws h doc coll none s p srv = no_reply-Remembers b e draws.store_time h srv

  update_parts :
      (draws : Draws) (h coll : Str) (q u : Option Str) (srv : Server b e)
      → Remembers b e draws.store_time h srv.request_cache.cache_window_ms
          (update_with b e ffi j draws h coll q u srv)
  unfolding update_with
  update_parts draws h coll (some q) (some u) srv =
      reply_cached-Remembers draws h _ (record srv { db_core = _ })
  update_parts draws h coll (some q) none srv = no_reply-Remembers b e draws.store_time h srv
  update_parts draws h coll none u srv = no_reply-Remembers b e draws.store_time h srv

  count-Remembers :
      (draws : Draws) (h : Str) (doc : j.Elem) (coll : Str) (srv : Server b e)
      → Remembers b e draws.store_time h srv.request_cache.cache_window_ms
          (handle_count b e ffi j draws h doc coll srv)
  unfolding handle_count
  count-Remembers draws h doc coll srv = elim (Option-cases (object_text j doc (lit "query"))) [
    | inl x ↦ rw (x, handle_count) (no_reply-Remembers b e draws.store_time h srv)
    | inr (q, x) ↦ rw (x, handle_count) (reply_cached-Remembers draws h _ srv)
  ]

  delete-Remembers :
      (draws : Draws) (h : Str) (doc : j.Elem) (coll : Str) (srv : Server b e)
      → Remembers b e draws.store_time h srv.request_cache.cache_window_ms
          (handle_delete b e ffi j draws h doc coll srv)
  unfolding handle_delete
  delete-Remembers draws h doc coll srv = elim (Option-cases (object_text j doc (lit "query"))) [
    | inl x ↦ rw (x, handle_delete) (no_reply-Remembers b e draws.store_time h srv)
    | inr (q, x) ↦
        rw (x, handle_delete) (reply_cached-Remembers draws h _ (record srv { db_core = _ }))
  ]

  find-Remembers :
      (draws : Draws) (h : Str) (doc : j.Elem) (coll : Str) (srv : Server b e)
      → Remembers b e draws.store_time h srv.request_cache.cache_window_ms
          (handle_find b e ffi j draws h doc coll srv)
  unfolding handle_find
  find-Remembers draws h doc coll srv =
      find_parts draws h doc coll (object_text j doc (lit "query")) (object_text j doc (lit "sort"))
        (object_text j doc (lit "projection")) srv

  update-Remembers :
      (draws : Draws) (h : Str) (doc : j.Elem) (coll : Str) (srv : Server b e)
      → Remembers b e draws.store_time h srv.request_cache.cache_window_ms
          (handle_update b e ffi j draws h doc coll srv)
  unfolding handle_update
  update-Remembers draws h doc coll srv =
      update_parts draws h coll (object_text j doc (lit "query")) (object_text j doc (lit "update"))
        srv

  dispatch-Remembers :
      (draws : Draws) (h : Str) (doc : j.Elem) (action coll : Str) (role : UserRole)
      (srv : Server b e)
      → IsKept action
      → Remembers b e draws.store_time h srv.request_cache.cache_window_ms
          (dispatch b e ffi j draws h doc action coll role srv)
  unfolding dispatch lit str_eq
  dispatch-Remembers draws h doc action coll role srv (inl a) =
      rw a (insert-Remembers draws h doc coll srv)
  dispatch-Remembers draws h doc action coll role srv (inr (inl a)) =
      rw a (find-Remembers draws h doc coll srv)
  dispatch-Remembers draws h doc action coll role srv (inr (inr (inl a))) =
      rw a (update-Remembers draws h doc coll srv)
  dispatch-Remembers draws h doc action coll role srv (inr (inr (inr (inl a)))) =
      rw a (count-Remembers draws h doc coll srv)
  dispatch-Remembers draws h doc action coll role srv (inr (inr (inr (inr a)))) =
      rw a (delete-Remembers draws h doc coll srv)

  -- Once one of the five actions on data was answered, the same request gets the same answer while
  -- that is fresh, and leaves the server as it is: nothing is inserted, updated or deleted twice,
  -- and a repeated query sees none of the writes in between.
  pub process_request_repeated :
      (draws later : Draws) (request : Str) (doc : j.Elem) (action coll : Str) (role : UserRole)
      (srv : Server b e) (response : Str)
      → IsKept action
      → str_eq request (lit "{\"action\":\"health\"}") ≡ false
      → is_fresh srv.request_cache.cache_window_ms later.lookup_time draws.store_time ≡ true
      → (dispatch b e ffi j draws (request_key b e ffi j request) doc action coll role srv).0
        ≡ some response
      → let after =
          (dispatch b e ffi j draws (request_key b e ffi j request) doc action coll role srv).1 in
        process_request b e ffi j later request after ≡ (some response, after)
  unfolding process_request get_cached_response
  process_request_repeated draws later request doc action coll role srv response kept other fresh
        answered =
      let key = request_key b e ffi j request in
      let memory = dispatch-Remembers draws key doc action coll role srv kept in
      ground (arith, other, fresh, memory.kept response answered, memory.same_window)
