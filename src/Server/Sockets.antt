-- ===== src/Server/Sockets.antt =====
-- The descriptors of client/net/server.cpp: what Server::run, Server::handle_client and Server::stop
-- do to them. Each operation of this file is done under the lock or by one thread, and the calls of
-- the operating system are kept in the order in which they are made.
pub mod Closing
use aevum.Prelude.{
  ℕ, ◌+◌, Bool, true, false, not, [], ◌∷◌, ◌++◌, List, Option, none, some, keep, if◌then◌else◌,
  ◌==◌,
}

pub data Call : Type 0 where
  shutdown close : ℕ → Call

pub record Sockets : Type 0 where
  pub is_running : Bool
  -- server_socket_fd_, and `none` for -1
  pub server_socket : Option ℕ
  pub client_sockets : List ℕ
  pub calls : List Call

-- shutdown and close of each socket, in order
abbrev pub close_each : List ℕ → List Call
close_each [] = []
close_each (fd ∷ fds) = shutdown fd ∷ (close fd ∷ close_each fds)

abbrev pub close_server : Option ℕ → List Call
close_server none = []
close_server (some fd) = close_each (fd ∷ [])

-- Server::stop, up to the joining of the threads
unfoldable pub stop : Sockets → Sockets
stop s = if not s.is_running then s else record {
  is_running = false;
  server_socket = none;
  client_sockets = [];
  calls = (s.calls ++ close_server s.server_socket) ++ close_each s.client_sockets;
}

-- The first block of Server::handle_client
unfoldable pub register : ℕ → Sockets → Sockets
register fd s = record s { client_sockets = s.client_sockets ++ fd ∷ [] }

-- The deferred block of Server::handle_client
unfoldable pub clean_up : ℕ → Sockets → Sockets
clean_up fd s = record s {
  client_sockets = keep (λ c. not (c == fd)) s.client_sockets;
  calls = s.calls ++ close fd ∷ [];
}

-- What Server::run asks of the operating system, one result each, where `none` and `false` are
-- failures. The options that are only tuned have no result that matters.
pub record Setup : Type 0 where
  pub socket : Option ℕ
  pub reuse_address : Bool
  pub bind : Bool
  pub listen : Bool

-- Server::run up to its loop: whether it comes to listen, or throws.
unfoldable pub start : Setup → Sockets → Bool × Sockets
start os s = elim os.socket [
  | none ↦ (false, record s { server_socket = none })
  | some fd ↦
      let opened = record s { server_socket = some fd } in
      if not os.reuse_address
      then (false, opened)
      else if not os.bind
      then (false, opened)
      else if not os.listen
      then (false, opened)
      else (true, record opened { is_running = true })
]

-- Server::~Server
unfoldable pub destroy : Sockets → Sockets
unfolding stop
destroy s = if s.is_running then stop s else s

-- What the threads do, in any order.
pub data Event : Type 0 where
  accepted ended : ℕ → Event
  stopped : Event

unfoldable pub step : Event → Sockets → Sockets
unfolding stop register clean_up
step (accepted fd) s = register fd s
step (ended fd) s = clean_up fd s
step stopped s = stop s

unfoldable pub run : List Event → Sockets → Sockets
unfolding step
run [] s = s
run (event ∷ events) s = run events (step event s)
