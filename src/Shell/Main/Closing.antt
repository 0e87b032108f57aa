-- ===== src/Shell/Main/Closing.antt =====
-- What the shell leaves behind.
use aevum.Prelude.{
  refl, Bool, ℕ, ◌≡◌, false, [], ◌∷◌, List, none, Str, arith, Bool-cases, Option-cases, inl, inr,
}
use aevum.Daemon.{out_of_range}
use aevum.Client.Connection.{
  Os, OsLaws, Connection, disconnect_server, is_connected, sending, used, send_request,
}
use aevum.Client.Connection.Descriptor.{Holds, connect-Holds, disconnect-Holds, used-Holds}
use aevum.Client.Session.{Session, new_session, connect, disconnect, destroyed, send_all, farewell}
use aevum.Shell.Main.{
  Target, talk, Stoi, number, invalid_argument, past_range, Arguments, target, port_of, with_host,
  read_arguments, help,
}

module _ (os : Os) (laws : OsLaws os) (first : ℕ → Bool) (g : ℕ) where
  send-Holds :
      (payload : Str) (c : Connection os)
      → Holds os laws first g c
      → Holds os laws first g (send_request os payload c).1
  unfolding used
  send-Holds payload c h = used-Holds os laws first g (sending payload) c h

  send_all-Holds :
      (payloads : List Str) (s : Session os)
      → Holds os laws first g s.conn_
      → Holds os laws first g (send_all os payloads s).conn_
  unfolding send_all
  send_all-Holds [] s h = h
  send_all-Holds (p ∷ ps) s h =
      send_all-Holds ps (record s { conn_ = (send_request os p s.conn_).1 })
        (send-Holds p s.conn_ h)

  disconnect_session-Holds :
      (s : Session os)
      → Holds os laws first g s.conn_
      → Holds os laws first g (disconnect os s).conn_
  unfolding disconnect
  disconnect_session-Holds s h = elim (Bool-cases (is_connected os s.conn_)) [
    | inr off ↦ rw off h
    | inl on ↦ rw on (
        disconnect-Holds os laws first g (send_request os (farewell s.api_key_) s.conn_).1
          (send-Holds (farewell s.api_key_) s.conn_ h))
  ]

  disconnect_server-none : (c : Connection os) → (disconnect_server os c).socket_fd ≡ none
  unfolding disconnect_server
  disconnect_server-none c = ground (arith, Option-cases c.socket_fd)

  -- The destructor gives back the descriptor, if there is one.
  destroyed-Holds :
      (s : Session os) → Holds os laws first g s.conn_ → laws.is_open (destroyed os s) g ≡ first g
  unfolding destroyed
  destroyed-Holds s h =
      ground (arith, disconnect_server-none s.conn_, disconnect-Holds os laws first g s.conn_ h)

-- Whatever requests the shell sends, and whatever call of the operating system fails on the way,
-- when the main function returns from its session with a target the same descriptors are open as
-- before it: its own is closed, and none of others.
pub talk-closes :
    (os : Target → Os) (t : Target) (laws : OsLaws (os t)) (payloads : List Str) (st : (os t).State)
    (g : ℕ)
    → laws.is_open (talk os t payloads st).1 g ≡ laws.is_open st g
unfolding talk connect new_session
talk-closes os t laws payloads st g =
    let first = laws.is_open st in
    let s = new_session (os t) t.api_key st in
    let starts : Holds (os t) laws first g s.conn_ = (refl, λ own. absurd cc) in
    let linked = (connect (os t) s).1 in
    let holds : Holds (os t) laws first g linked.conn_ =
      connect-Holds (os t) laws first g s.conn_ starts in
    let served = send_all (os t) payloads linked in
    elim (Bool-cases (connect (os t) s).0) [
      | inr failed ↦ rw failed (destroyed-Holds (os t) laws first g linked holds)
      | inl made ↦ rw made (
          destroyed-Holds (os t) laws first g (disconnect (os t) served) (
            disconnect_session-Holds (os t) laws first g served
              (send_all-Holds (os t) laws first g payloads linked holds)))
    ]

-- The shell talks only to ports from 1 to 65535.
pub read_arguments_port :
    (stoi : Str → Stoi) (arguments : List Str) (t : Target)
    → read_arguments stoi arguments ≡ target t
    → out_of_range t.port ≡ false
unfolding read_arguments with_host port_of aevum.Shell.Main.defaults aevum.Shell.Main.key_of
    aevum.Shell.Main.port_refusal out_of_range
read_arguments_port stoi [] t h = ground (arith, h)
read_arguments_port stoi (host ∷ []) t h = ground (arith, h)
read_arguments_port stoi (host ∷ text ∷ more) t h = ground (arith, h)
