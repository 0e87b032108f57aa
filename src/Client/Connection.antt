-- ===== src/Client/Connection.antt =====
-- client/net/connection.cpp: the client's end of a connection. The socket calls are the interface
-- `Os`, the host and the port a part of it.
pub mod Descriptor
use aevum.Prelude.{
  ℕ, ◌+◌, ◌-◌, ◌≡◌, Bool, true, false, not, [], ◌∷◌, List, Option, none, some, Str, lit,
  if◌then◌else◌, ◌==◌,
}

-- What recv gave: bytes, the end of the stream (0), or a failure (below 0).
pub data Received : Type 0 where
  bytes : Str → Received
  end_of_stream failed : Received

pub record Os : Type 1 where
  pub State : Type 0
  -- socket, where `none` is a negative result
  pub socket : State → Option ℕ × State
  -- inet_pton of the host and connect to the port: whether both succeed
  pub parses_host : Bool
  pub connect : ℕ → State → Bool × State
  pub close : ℕ → State → State
  -- send: how many bytes were taken, and `none` for a negative result
  pub send : ℕ → Str → State → Option ℕ × State
  pub recv : ℕ → ℕ → State → Received × State

-- Which descriptors are open: `socket` gives one that was closed, `close` closes the one it is given.
pub record OsLaws (os : Os) : Type 0 where
  pub is_open : os.State → ℕ → Bool
  pub socket_fails :
      (st : os.State) (g : ℕ) → (os.socket st).0 ≡ none → is_open (os.socket st).1 g ≡ is_open st g
  pub socket_opens :
      (st : os.State) (fd : ℕ)
      → (os.socket st).0 ≡ some fd
      → (is_open st fd ≡ false)
        × ((g : ℕ) → is_open (os.socket st).1 g ≡ (if g == fd then true else is_open st g))
  pub close_closes :
      (fd : ℕ) (st : os.State) (g : ℕ)
      → is_open (os.close fd st) g ≡ (if g == fd then false else is_open st g)
  pub connect_keeps :
      (fd : ℕ) (st : os.State) (g : ℕ) → is_open (os.connect fd st).1 g ≡ is_open st g
  pub send_keeps :
      (fd : ℕ) (s : Str) (st : os.State) (g : ℕ) → is_open (os.send fd s st).1 g ≡ is_open st g
  pub recv_keeps : (fd n : ℕ) (st : os.State) (g : ℕ) → is_open (os.recv fd n st).1 g ≡ is_open st g

-- What a client does with a connection; Connection::~Connection is `disconnect_server`.
pub data Use : Type 0 where
  connecting disconnecting : Use
  sending : Str → Use

module _ (os : Os) where
  -- socket_fd_, and `none` for a negative value; and what the calls change.
  pub record Connection : Type 0 where
    pub socket_fd : Option ℕ
    pub state : os.State

  unfoldable pub is_connected : Connection → Bool
  is_connected c = elim c.socket_fd [ none ↦ false | some fd ↦ true ]

  unfoldable pub disconnect_server : Connection → Connection
  disconnect_server c = elim c.socket_fd [
    | none ↦ c
    | some fd ↦ record { socket_fd = none; state = os.close fd c.state }
  ]

  -- The steps behind `socket`.
  open_to : ℕ → os.State → Bool × Connection
  unfolding disconnect_server
  open_to fd st =
      let opened : Connection = record { socket_fd = some fd; state = st } in
      if not os.parses_host
      then (false, disconnect_server opened)
      else let (connected, st') = os.connect fd st in
        let opened' : Connection = record { socket_fd = some fd; state = st' } in
        if connected then (true, opened') else (false, disconnect_server opened')

  unfoldable pub connect_server : Connection → Bool × Connection
  unfolding is_connected open_to
  connect_server c =
      if is_connected c
      then (true, c)
      else let (made, st) = os.socket c.state in
        elim made [
          | none ↦ (false, record { socket_fd = none; state = st })
          | some fd ↦ open_to fd st
        ]

  -- What `send_request` makes of the answer.
  receive : ℕ → os.State → Str × Connection
  unfolding disconnect_server
  receive fd st =
      let (got, st') = os.recv fd 16383 st in
      let open_still : Connection = record { socket_fd = some fd; state = st' } in
      elim got [
        | bytes response ↦ (response, open_still)
        | end_of_stream ↦ (
          lit
              "{\"status\":\"error\",\"message\":\"Connection Error: Connection was closed by the server.\"}",
          disconnect_server open_still,
        )
        | failed ↦ (
          lit
              "{\"status\":\"error\",\"message\":\"Network Error: Failed to receive response from server.\"}",
          disconnect_server open_still,
        )
      ]

  exchange : ℕ → Str → os.State → Str × Connection
  unfolding receive disconnect_server
  exchange fd payload st =
      let (sent, st') = os.send fd payload st in
      elim sent [
        | none ↦ (
          lit
              "{\"status\":\"error\",\"message\":\"Network Error: Failed to send data to server.\"}",
          disconnect_server (record { socket_fd = some fd; state = st' }),
        )
        | some n ↦ receive fd st'
      ]

  -- A `send` to the descriptor -1 fails, and there is nothing to close.
  send_over : Str → Bool → Connection → Str × Connection
  unfolding exchange
  send_over payload connected c =
      if not connected
      then (
        lit
            "{\"status\":\"error\",\"message\":\"Connection Failure: Unable to establish connection to AevumDB server.\"}",
        c,
      )
      else elim c.socket_fd [
        | none ↦ (
          lit
              "{\"status\":\"error\",\"message\":\"Network Error: Failed to send data to server.\"}",
          c,
        )
        | some fd ↦ exchange fd payload c.state
      ]

  -- Connection::send_request
  unfoldable pub send_request : Str → Connection → Str × Connection
  unfolding connect_server send_over
  send_request payload c = let (connected, c') = connect_server c in send_over payload connected c'

  unfoldable pub used : Use → Connection → Connection
  unfolding connect_server disconnect_server send_request
  used connecting c = (connect_server c).1
  used disconnecting c = disconnect_server c
  used (sending payload) c = (send_request payload c).1

  unfoldable pub used_all : List Use → Connection → Connection
  unfolding used
  used_all [] c = c
  used_all (u ∷ us) c = used_all us (used u c)
