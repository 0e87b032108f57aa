-- ===== src/Server/Net.antt =====
-- Server::handle_client of client/net/server.cpp: the loop over the requests of one connection. The
-- socket calls are the interface `Net`; its state includes what the other threads do to the flag
-- `is_running_` while this one waits.
pub mod Delivery
pub mod Exit
use aevum.Prelude.{
  ℕ, zero, suc, ◌+◌, ◌≡◌, ◌≢◌, ◌<◌, ◌≤◌, Bool, true, false, not, [], ◌∷◌, ◌++◌, List, Option, none,
  some, Str, lit, length, take, drop, ltb, leb, has_text, if◌then◌else◌,
}
use aevum.Bson.{Bson}
use aevum.Ffi.{Ffi}
use aevum.Storage.{Engine}
use aevum.Server.{Json, Draws, Server}
use aevum.Server.Dispatch.{process_request}

pub record Net : Type 1 where
  pub State : Type 0
  -- is_running_
  pub is_running : State → Bool
  -- recv into a buffer of the size: `none` for a result of 0 or less
  pub recv : ℕ → State → Option Str × State
  -- send: how many bytes were taken, and `none` for a negative result
  pub send : Str → State → Option ℕ × State
  -- all the bytes that were taken on this connection
  pub taken : State → Str

-- What POSIX says of a blocking stream socket.
pub record NetLaws (n : Net) : Type 0 where
  pub send_takes :
      (s : Str) (st : n.State) (k : ℕ)
      → (n.send s st).0 ≡ some k
      → (k ≤ length s) × (n.taken (n.send s st).1 ≡ n.taken st ++ take k s)
  -- a call of `recv` gives no more bytes than the buffer takes; it may give fewer, and a request
  -- that is longer than that, or comes in parts, is handed out by several calls
  pub recv_fits :
      (size : ℕ) (st : n.State) (s : Str) → (n.recv size st).0 ≡ some s → length s ≤ size
  -- a call with something to send takes some of it, or fails
  pub send_progress :
      (s : Str) (st : n.State) (k : ℕ) → (n.send s st).0 ≡ some k → 0 < length s → 0 < k

-- How the work on one request ends: with the next `recv`, with the connection, with an exception
-- that nothing catches, or never.
pub data Turn : Type 0 where
  again over thrown hung : Turn

module _ (n : Net) where
  -- The loop of `send` calls, from the offset `sent` on: whether all was sent.
  unfoldable pub send_from : ℕ → Str → ℕ → n.State → Option (Bool × n.State)
  send_from zero response sent st = none
  send_from (suc fuel) response sent st =
      if not (ltb sent (length response))
      then some (true, st)
      else let (taken, st') = n.send (drop sent response) st in
        elim taken [ none ↦ some (false, st') | some k ↦ send_from fuel response (sent + k) st' ]

  -- A call that takes at least one byte in each round is done after as many rounds as there are
  -- bytes.
  unfoldable pub send_response : Str → n.State → Option (Bool × n.State)
  unfolding send_from
  send_response response st = send_from (suc (length response)) response 0 st

abbrev pub exit_text : Str
exit_text = lit "\"action\":\"exit\""

abbrev pub goodbye : Str
goodbye = lit "{\"status\":\"ok\",\"message\":\"Goodbye\"}"

module _ (b : Bson) (e : Engine) (ffi : Ffi) (j : Json) (n : Net) where
  -- A loop of `send` calls that has ended, well or not, leads to the given turn.
  after_send : Turn → Server b e → Option (Bool × n.State) → n.State → Turn × Server b e × n.State
  after_send turn srv none st = (hung, srv, st)
  after_send turn srv (some (all_sent, st')) st = (turn, srv, st')

  -- What the loop does with the bytes of one `recv`, which are at most 16383: it takes them for a
  -- whole request.
  unfoldable pub serve_request : Draws → Str → Server b e → n.State → Turn × Server b e × n.State
  unfolding after_send
  serve_request draws request srv st =
      if ltb 8388608 (length request)
      then (
        over,
        srv,
        (n.send (lit "{\"status\":\"error\",\"message\":\"Request too large\"}") st).1,
      )
      else if has_text exit_text request
      then after_send over srv (send_response n goodbye st) st
      else let (reply, srv') = process_request b e ffi j draws request srv in
        elim reply [
          | none ↦ (thrown, srv', st)
          | some response ↦ after_send again srv' (send_response n response st) st
        ]

  -- The loop, for as many rounds as there are draws: `again` is a connection that is still open.
  unfoldable pub serve : List Draws → Server b e → n.State → Turn × Server b e × n.State
  serve [] srv st = (again, srv, st)
  serve (draws ∷ more) srv st =
      if not (n.is_running st)
      then (over, srv, st)
      else let (received, st') = n.recv 16383 st in
        elim received [
          | none ↦ (over, srv, st')
          | some request ↦
              let (turn, srv', last) = serve_request draws request srv st' in
              elim turn [
                | again ↦ serve more srv' last
                | over ↦ (over, srv', last)
                | thrown ↦ (thrown, srv', last)
                | hung ↦ (hung, srv', last)
              ]
        ]
