-- ===== src/Client/Connection/Descriptor.antt =====
-- A connection holds at most one descriptor, and loses none.
use aevum.Prelude.{
  ℕ, ◌≡◌, Bool, [], ◌∷◌, List, Option, none, some, Str, arith, inl, inr, Option-cases, Bool-cases,
  true, false, if◌then◌else◌, ◌==◌, ==_iff, sym, subst,
}
use aevum.Client.Connection.{
  Os, OsLaws, Connection, is_connected, disconnect_server, connect_server, open_to, receive,
  exchange, send_over, send_request, Use, connecting, disconnecting, sending, used, used_all,
}

module _ (os : Os) (laws : OsLaws os) (first : ℕ → Bool) (g : ℕ) where
  -- Whether the descriptor is the connection's own.
  abbrev owned : Option ℕ → Bool
  owned none = false
  owned (some fd) = g == fd

  -- The descriptor is open if it was open at first or is the connection's own, and not both.
  abbrev pub Holds : Connection os → Type 0
  Holds c =
      (laws.is_open c.state g ≡ (if owned c.socket_fd then true else first g))
      × (owned c.socket_fd ≡ true → first g ≡ false)

  pub disconnect-Holds : (c : Connection os) → Holds c → Holds (disconnect_server os c)
  unfolding disconnect_server
  disconnect-Holds c h = elim (Option-cases c.socket_fd) [
    | inl e ↦ ground (arith, e, h)
    | inr (fd, e) ↦ ground (arith, e, h, laws.close_closes fd c.state g)
  ]

  -- A connection that has a descriptor.
  abbrev at : ℕ → os.State → Connection os
  at fd st = record { socket_fd = some fd; state = st }

  open_to-Holds : (fd : ℕ) (st : os.State) → Holds (at fd st) → Holds (open_to os fd st).1
  unfolding open_to
  open_to-Holds fd st h = ground (
    arith,
    laws.connect_keeps fd st g,
    disconnect-Holds (at fd st) h,
    disconnect-Holds (at fd (os.connect fd st).1),
  )

  -- What `socket` gives becomes the connection's own.
  socket-Holds :
      (c : Connection os) (fd : ℕ)
      → c.socket_fd ≡ none
      → (os.socket c.state).0 ≡ some fd
      → Holds c
      → Holds (at fd (os.socket c.state).1)
  socket-Holds c fd e f h =
      let (fresh, now) = laws.socket_opens c.state fd f in
      elim (Bool-cases (g == fd)) [
        | inr other ↦ ground (arith, e, h, now g, other)
        | inl same ↦
            let free : laws.is_open c.state g ≡ false =
              subst (λ x. laws.is_open c.state x ≡ false) (sym ((==_iff g fd).0 same)) fresh in
            ground (arith, e, h, now g, same, free)
      ]

  pub connect-Holds : (c : Connection os) → Holds c → Holds (connect_server os c).1
  unfolding connect_server is_connected
  connect-Holds c h = elim (Option-cases c.socket_fd) [
    | inr (fd, e) ↦ ground (arith, e, h)
    | inl e ↦ elim (Option-cases (os.socket c.state).0) [
      | inl f ↦ ground (arith, e, f, h, laws.socket_fails c.state g f)
      | inr (fd, f) ↦
          ground (arith, e, f, h, open_to-Holds fd (os.socket c.state).1 (socket-Holds c fd e f h))
    ]
  ]

  receive-Holds : (fd : ℕ) (st : os.State) → Holds (at fd st) → Holds (receive os fd st).1
  unfolding receive
  receive-Holds fd st h =
      ground
        (arith, laws.recv_keeps fd 16383 st g, disconnect-Holds (at fd (os.recv fd 16383 st).1))

  exchange-Holds :
      (fd : ℕ) (payload : Str) (st : os.State)
      → Holds (at fd st)
      → Holds (exchange os fd payload st).1
  unfolding exchange
  exchange-Holds fd payload st h = ground (
    arith,
    laws.send_keeps fd payload st g,
    disconnect-Holds (at fd (os.send fd payload st).1),
    receive-Holds fd (os.send fd payload st).1,
  )

  send_over-Holds :
      (payload : Str) (connected : Bool) (c : Connection os)
      → Holds c
      → Holds (send_over os payload connected c).1
  unfolding send_over
  send_over-Holds payload connected c h = elim (Option-cases c.socket_fd) [
    | inl e ↦ ground (arith, e, h)
    | inr (fd, e) ↦ ground (arith, e, h, exchange-Holds fd payload c.state)
  ]

  pub used-Holds : (u : Use) (c : Connection os) → Holds c → Holds (used os u c)
  unfolding used send_request
  used-Holds connecting c h = connect-Holds c h
  used-Holds disconnecting c h = disconnect-Holds c h
  used-Holds (sending payload) c h =
      send_over-Holds payload (connect_server os c).0 (connect_server os c).1 (connect-Holds c h)

  -- Whatever a client does with a connection, and whatever fails on the way, the descriptor is open
  -- if it was open at first or is the one that the connection knows of: none is lost, and none of
  -- others is closed.
  pub used_all-Holds : (us : List Use) (c : Connection os) → Holds c → Holds (used_all os us c)
  unfolding used_all
  used_all-Holds [] c h = h
  used_all-Holds (u ∷ us) c h = used_all-Holds us (used os u c) (used-Holds u c h)
