-- ===== src/Server/Net/Exit.antt =====
-- A request in which the text of the `exit` action occurs anywhere.
use aevum.Prelude.{
  ◌≡◌, refl, true, false, [], ◌∷◌, ◌++◌, List, some, Str, lit, length, ltb, ◌≤◌, has_text,
  has_text-append, has_text-behind, has_text_self, arith, drop,
}
use aevum.Bson.{Bson}
use aevum.Ffi.{Ffi}
use aevum.Storage.{Engine}
use aevum.Client.{AevumClient, build_payload}
use aevum.Client.Session.{farewell}
use aevum.Server.{Json, Draws, Server}
use aevum.Server.Net.{
  Net, NetLaws, Turn, over, exit_text, goodbye, send_response, serve_request, serve,
}
use aevum.Server.Net.Delivery.{send_response-Delivers}

-- The payload holds the extra fields.
has_text-build_payload :
    (client : AevumClient) (action collection p extra : Str)
    → has_text p extra ≡ true
    → has_text p (build_payload client action collection extra) ≡ true
unfolding build_payload
has_text-build_payload client action collection p [] h = unfold has_text in absurd cc
has_text-build_payload client action collection p (c ∷ s) h =
    has_text-behind p _ _
      (has_text-behind p _ _ (has_text-append p _ _ (has_text-behind p (lit ",") (c ∷ s) h)))

has_text-exit : (before after : Str) → has_text exit_text (before ++ (exit_text ++ after)) ≡ true
unfolding lit
has_text-exit before after =
    has_text-behind exit_text before _ (has_text_self b'"' (drop 1 exit_text) after)

-- Whatever the key, the request of AevumClient::disconnect holds the text.
has_text-farewell : (api_key : Str) → has_text exit_text (farewell api_key) ≡ true
unfolding farewell build_payload lit
has_text-farewell api_key =
    has_text-append exit_text (lit "{\"auth\":\"" ++ (api_key ++ (lit "\"," ++ exit_text))) _ (
      has_text-behind exit_text (lit "{\"auth\":\"") _ (
        has_text-behind exit_text api_key _ (
          has_text-behind exit_text (lit "\",") exit_text
            (has_text_self b'"' (drop 1 exit_text) []))))

-- The request of AevumClient::insert for a document.
abbrev pub insert_request : AevumClient → Str → Str → Str
insert_request client collection doc_json =
    build_payload client (lit "insert") collection (lit "\"data\":" ++ doc_json)

-- A document's text with the text of the action somewhere in it.
abbrev pub with_exit : Str → Str → Str
with_exit before after = before ++ (exit_text ++ after)

module _ (b : Bson) (e : Engine) (ffi : Ffi) (j : Json) (n : Net) (laws : NetLaws n) where
  serve_request-exit :
      (draws : Draws) (request : Str) (srv : Server b e) (st : n.State)
      → length request ≤ 8388608
      → has_text exit_text request ≡ true
      → let (turn, srv', st') = serve_request b e ffi j n draws request srv st in
        (turn ≡ over) × (srv' ≡ srv)
  unfolding serve_request aevum.Server.Net.after_send
  serve_request-exit draws request srv st short found =
      let (r, ends, all) = send_response-Delivers n laws goodbye st in
      let fits : ltb 8388608 (length request) ≡ false = ground arith in
      rw (fits, found, ends) (refl, refl)

  -- A `recv` that hands out the text ends the loop.
  serve-exit :
      (draws : Draws) (more : List Draws) (request : Str) (srv : Server b e) (st : n.State)
      → n.is_running st ≡ true
      → (n.recv 16383 st).0 ≡ some request
      → has_text exit_text request ≡ true
      → let (turn, srv', st') = serve b e ffi j n (draws ∷ more) srv st in
        (turn ≡ over) × (srv' ≡ srv)
  unfolding serve
  serve-exit draws more request srv st running got found =
      let small = laws.recv_fits 16383 st request got in
      let (ends, same) =
        serve_request-exit draws request srv (n.recv 16383 st).1 (omega (arith, small)) found in
      rw (running, got, ends) (refl, same)

  -- A client's insert of a document in whose text `"action":"exit"` occurs is not carried out: where
  -- one `recv` of the loop of a running server, over a blocking stream socket, hands out the whole
  -- request, the connection ends there and the server stays as it is.
  pub serve-insert_exit :
      (draws : Draws) (more : List Draws) (client : AevumClient) (collection before after : Str)
      (srv : Server b e) (st : n.State)
      → n.is_running st ≡ true
      → (n.recv 16383 st).0 ≡ some (insert_request client collection (with_exit before after))
      → let (turn, srv', st') = serve b e ffi j n (draws ∷ more) srv st in
        (turn ≡ over) × (srv' ≡ srv)
  serve-insert_exit draws more client collection before after srv st running got =
      serve-exit draws more _ srv st running got (
        has_text-build_payload client (lit "insert") collection exit_text _
          (has_text-behind exit_text (lit "\"data\":") _ (has_text-exit before after)))

  -- The request with which a client takes its leave, where one `recv` of the loop of a running
  -- server, over a blocking stream socket, hands it out whole, ends the connection and leaves the
  -- server as it is, whatever the key is.
  pub serve-farewell :
      (draws : Draws) (more : List Draws) (api_key : Str) (srv : Server b e) (st : n.State)
      → n.is_running st ≡ true
      → (n.recv 16383 st).0 ≡ some (farewell api_key)
      → let (turn, srv', st') = serve b e ffi j n (draws ∷ more) srv st in
        (turn ≡ over) × (srv' ≡ srv)
  serve-farewell draws more api_key srv st running got =
      serve-exit draws more (farewell api_key) srv st running got (has_text-farewell api_key)
