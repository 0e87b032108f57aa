-- ===== src/Server/Access.antt =====
-- Which requests may change the engine.
use aevum.Prelude.{
  ◌≡◌, refl, true, false, Option, none, some, Str, lit, str_eq, arith, Option-cases, Bool-cases,
  inl, inr, ap, ◌⊎◌,
}
use aevum.Util.RequestCache.{get_cached_response}
use aevum.Bson.{Bson}
use aevum.Ffi.{Ffi}
use aevum.Storage.{Engine}
use aevum.Auth.Role.{UserRole, read_only, has_permission}
use aevum.Core.Admin
use aevum.Server.{Json, Draws, Server, Reply}
use aevum.Server.Handlers.{denied_response}
use aevum.Server.Dedup.{IsKept}
use aevum.Server.Dispatch.{
  is_none_role, is_admin, admin_only, dispatch, authorise, act, handle_parsed, request_key,
  process_request,
}

-- The four actions for administrators.
abbrev pub IsAdminAction : Str → Type 0
IsAdminAction a =
    (a ≡ lit "set_schema") ⊎ ((a ≡ lit "metrics") ⊎ ((a ≡ lit "config") ⊎ (a ≡ lit "create_user")))

module _ (b : Bson) (e : Engine) (ffi : Ffi) (j : Json) where
  -- No user has the key that the request sends, or it sends none.
  abbrev pub IsAnonymous : Server b e → j.Elem → Type 0
  IsAnonymous srv doc =
      (key : Str)
      → j.get_string doc (lit "auth") ≡ some key
      → is_none_role (Admin.authenticate b e srv.db_core key) ≡ true

  authorise_anonymous :
      (draws : Draws) (h : Str) (doc : j.Elem) (action : Str) (auth : Option Str) (srv : Server b e)
      → ((key : Str)
          → auth ≡ some key
          → is_none_role (Admin.authenticate b e srv.db_core key) ≡ true)
      → (authorise b e ffi j draws h doc action auth srv).1 ≡ srv
  unfolding authorise
  authorise_anonymous draws h doc action none srv anon = refl
  authorise_anonymous draws h doc action (some key) srv anon = ground (arith, anon key refl)

  act_anonymous :
      (draws : Draws) (h : Str) (doc : j.Elem) (action : Option Str) (srv : Server b e)
      → IsAnonymous srv doc
      → (act b e ffi j draws h doc action srv).1 ≡ srv
  unfolding act
  act_anonymous draws h doc none srv anon = refl
  act_anonymous draws h doc (some action) srv anon =
      ground
        (arith, authorise_anonymous draws h doc action (j.get_string doc (lit "auth")) srv anon)

  handle_parsed_anonymous :
      (draws : Draws) (h : Str) (doc : Option j.Elem) (srv : Server b e)
      → ((d : j.Elem) → doc ≡ some d → IsAnonymous srv d)
      → (handle_parsed b e ffi j draws h doc srv).1 ≡ srv
  unfolding handle_parsed
  handle_parsed_anonymous draws h none srv anon = refl
  handle_parsed_anonymous draws h (some d) srv anon =
      act_anonymous draws h d (j.get_string d (lit "action")) srv (anon d refl)

  -- A request that, where it is JSON, sends no key of a user never changes the engine, whatever
  -- it asks for.
  pub process_request_anonymous :
      (draws : Draws) (request : Str) (srv : Server b e)
      → ((d : j.Elem) → j.parse_json request ≡ some d → IsAnonymous srv d)
      → (process_request b e ffi j draws request srv).1.db_core ≡ srv.db_core
  unfolding process_request
  process_request_anonymous draws request srv anon =
      let key = request_key b e ffi j request in
      let found = get_cached_response draws.lookup_time key srv.request_cache in
      elim (Bool-cases (str_eq request (lit "{\"action\":\"health\"}"))) [
        | inl health ↦ rw health
        | inr other ↦ elim (Option-cases found.0) [
          | inl miss ↦
              rw (other, miss)
                (ap (λ (s : Server b e). s.db_core)
                  (handle_parsed_anonymous draws key (j.parse_json request)
                    (record srv { request_cache = found.1 }) anon))
          | inr (response, hit) ↦ rw (other, hit)
        ]
      ]

  admin_only_denied :
      (role : UserRole) (reply : Reply b e) (srv : Server b e)
      → is_admin role ≡ false
      → admin_only b e ffi j role reply srv ≡ (some denied_response, srv)
  unfolding admin_only
  admin_only_denied role reply srv lower = rw lower

  -- A user who is not an administrator is refused the four actions of administrators, and the
  -- server stays as it is.
  pub dispatch_denied :
      (draws : Draws) (h : Str) (doc : j.Elem) (action coll : Str) (role : UserRole)
      (srv : Server b e)
      → IsAdminAction action
      → is_admin role ≡ false
      → dispatch b e ffi j draws h doc action coll role srv ≡ (some denied_response, srv)
  unfolding dispatch lit str_eq
  dispatch_denied draws h doc action coll role srv (inl a) lower =
      rw a (admin_only_denied role _ srv lower)
  dispatch_denied draws h doc action coll role srv (inr (inl a)) lower =
      rw a (admin_only_denied role _ srv lower)
  dispatch_denied draws h doc action coll role srv (inr (inr (inl a))) lower =
      rw a (admin_only_denied role _ srv lower)
  dispatch_denied draws h doc action coll role srv (inr (inr (inr a))) lower =
      rw a (admin_only_denied role _ srv lower)

  -- For the five actions on data the role is not asked for: what a request of one role does and
  -- answers, that request does and answers under any other, although the permissions of the roles
  -- differ: a reader has none to insert.
  pub dispatch-ignores_role :
      (draws : Draws) (h : Str) (doc : j.Elem) (action coll : Str) (role other : UserRole)
      (srv : Server b e)
      → IsKept action
      → (dispatch b e ffi j draws h doc action coll role srv
          ≡ dispatch b e ffi j draws h doc action coll other srv)
        × (has_permission read_only (lit "insert") ≡ false)
  unfolding dispatch has_permission lit str_eq
  dispatch-ignores_role draws h doc action coll role other srv (inl a) = (rw a refl, refl)
  dispatch-ignores_role draws h doc action coll role other srv (inr (inl a)) = (rw a refl, refl)
  dispatch-ignores_role draws h doc action coll role other srv (inr (inr (inl a))) =
      (rw a refl, refl)
  dispatch-ignores_role draws h doc action coll role other srv (inr (inr (inr (inl a)))) =
      (rw a refl, refl)
  dispatch-ignores_role draws h doc action coll role other srv (inr (inr (inr (inr a)))) =
      (rw a refl, refl)
