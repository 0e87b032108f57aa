-- ===== src/Server/Dedup/Twice.antt =====
-- A whole request that is sent twice.
use aevum.Prelude.{
  ℕ, ◌≡◌, refl, true, false, [], none, some, Str, lit, str_eq, arith, inl, inr, ap, ◌∙◌, sym, subst,
}
use aevum.Util.RequestCache.{RequestCache, is_fresh, get_cached_response}
use aevum.Bson.{Bson}
use aevum.Ffi.{Ffi}
use aevum.Storage.{Engine}
use aevum.Core.Admin
use aevum.Server.{Json, Draws, Server, Reply}
use aevum.Server.Handlers.{text_or}
use aevum.Server.Dispatch.{
  is_none_role, dispatch, authorise, act, handle_parsed, request_key, process_request,
}
use aevum.Server.Dedup.{IsKept, process_request_repeated}

IsKept-health : (action : Str) → IsKept action → str_eq action (lit "health") ≡ false
unfolding str_eq lit
IsKept-health a (inl e) = rw e refl
IsKept-health a (inr (inl e)) = rw e refl
IsKept-health a (inr (inr (inl e))) = rw e refl
IsKept-health a (inr (inr (inr (inl e)))) = rw e refl
IsKept-health a (inr (inr (inr (inr e)))) = rw e refl

module _ (b : Bson) (e : Engine) (ffi : Ffi) (j : Json) where
  -- The server after the cache was asked for the request.
  after_lookup : Draws → Str → Server b e → Server b e
  after_lookup draws request srv = record srv {
    request_cache =
        (get_cached_response draws.lookup_time (request_key b e ffi j request) srv.request_cache).1;
  }

  process_request-dispatch :
      (draws : Draws) (request : Str) (doc : j.Elem) (action key : Str) (srv : Server b e)
      → str_eq request (lit "{\"action\":\"health\"}") ≡ false
      → (get_cached_response draws.lookup_time (request_key b e ffi j request) srv.request_cache).0
        ≡ none
      → j.parse_json request ≡ some doc
      → j.get_string doc (lit "action") ≡ some action
      → str_eq action (lit "health") ≡ false
      → j.get_string doc (lit "auth") ≡ some key
      → is_none_role (Admin.authenticate b e srv.db_core key) ≡ false
      → process_request b e ffi j draws request srv
        ≡ dispatch b e ffi j draws
            (request_key b e ffi j request)
            doc
            action
            (text_or [] (j.get_string doc (lit "collection")))
            (Admin.authenticate b e srv.db_core key)
            (after_lookup draws request srv)
  unfolding process_request handle_parsed act authorise after_lookup
  process_request-dispatch draws request doc action key srv other miss parses asks no_health sends
        known =
      rw (other, miss, parses, handle_parsed, asks, act, no_health, sends, authorise, known) refl

  get_cached_response-window :
      (now : ℕ) (h : Str) (c : RequestCache)
      → (get_cached_response now h c).1.cache_window_ms ≡ c.cache_window_ms
  unfolding get_cached_response
  get_cached_response-window now h c = ground arith

  -- A request by a user for one of the five actions on data, which is not answered from the cache
  -- but with a response, is answered with that response again while that is fresh, and the second
  -- time the server stays as it is: nothing is inserted, updated or deleted twice.
  pub process_request-process_request :
      (draws later : Draws) (request : Str) (doc : j.Elem) (action key response : Str)
      (srv : Server b e)
      → IsKept action
      → str_eq request (lit "{\"action\":\"health\"}") ≡ false
      → (get_cached_response draws.lookup_time (request_key b e ffi j request) srv.request_cache).0
        ≡ none
      → j.parse_json request ≡ some doc
      → j.get_string doc (lit "action") ≡ some action
      → j.get_string doc (lit "auth") ≡ some key
      → is_none_role (Admin.authenticate b e srv.db_core key) ≡ false
      → is_fresh srv.request_cache.cache_window_ms later.lookup_time draws.store_time ≡ true
      → (process_request b e ffi j draws request srv).0 ≡ some response
      → let after = (process_request b e ffi j draws request srv).1 in
        process_request b e ffi j later request after ≡ (some response, after)
  unfolding after_lookup
  process_request-process_request draws later request doc action key response srv kept other miss
        parses asks sends known fresh answered =
      let first =
        process_request-dispatch draws request doc action key srv other miss parses asks
          (IsKept-health action kept) sends known in
      let window =
        get_cached_response-window draws.lookup_time (request_key b e ffi j request)
          srv.request_cache in
      subst (λ (r : Reply b e). process_request b e ffi j later request r.1 ≡ (some response, r.1))
        (sym first)
        (process_request_repeated b e ffi j draws later request doc action
          (text_or [] (j.get_string doc (lit "collection")))
          (Admin.authenticate b e srv.db_core key) (after_lookup draws request srv) response kept
          other (ap (λ w. is_fresh w later.lookup_time draws.store_time) window ∙ fresh)
          (ap (λ (r : Reply b e). r.0) (sym first) ∙ answered))
