-- ===== src/Server/Sockets/Closing.antt =====
-- How often a descriptor is closed.
use aevum.Prelude.{
  ℕ, ◌+◌, ◌≡◌, refl, true, [], ◌∷◌, ◌++◌, List, map, ◌*◌, if◌then◌else◌, ◌==◌, arith,
}
use aevum.Server.Sockets.{
  Call, shutdown, close, Sockets, close_each, close_server, stop, clean_up, ended, step, run,
}

-- How often the descriptor is closed by the calls, and how often it stands in a list.
abbrev pub closed_by : ℕ → List Call → ℕ
closed_by fd [] = 0
closed_by fd (shutdown c ∷ calls) = closed_by fd calls
closed_by fd (close c ∷ calls) = (if c == fd then 1 else 0) + closed_by fd calls

abbrev pub count : ℕ → List ℕ → ℕ
count fd [] = 0
count fd (c ∷ cs) = (if c == fd then 1 else 0) + count fd cs

closed_by-append :
    (fd : ℕ) (a b : List Call) → closed_by fd (a ++ b) ≡ closed_by fd a + closed_by fd b
closed_by-append fd [] b = omega arith
closed_by-append fd (shutdown c ∷ a) b = closed_by-append fd a b
closed_by-append fd (close c ∷ a) b = omega (arith, closed_by-append fd a b)

closed_by-close_each : (fd : ℕ) (cs : List ℕ) → closed_by fd (close_each cs) ≡ count fd cs
closed_by-close_each fd [] = refl
closed_by-close_each fd (c ∷ cs) = omega (arith, closed_by-close_each fd cs)

count-append : (fd : ℕ) (a b : List ℕ) → count fd (a ++ b) ≡ count fd a + count fd b
count-append fd [] b = omega arith
count-append fd (c ∷ a) b = omega (arith, count-append fd a b)

ends-closed_by :
    (fds : List ℕ) (s : Sockets) (fd : ℕ)
    → closed_by fd (run (map ended fds) s).calls ≡ closed_by fd s.calls + count fd fds
unfolding run step clean_up
ends-closed_by [] s fd = omega arith
ends-closed_by (c ∷ cs) s fd =
    omega (arith, ends-closed_by cs (clean_up c s) fd, closed_by-append fd s.calls (close c ∷ []))

stop-closed_by :
    (s : Sockets) (fd : ℕ)
    → s.is_running ≡ true
    → closed_by fd (stop s).calls
      ≡ closed_by fd s.calls
        + closed_by fd (close_server s.server_socket)
        + count fd s.client_sockets
unfolding stop
stop-closed_by s fd running = rw running (
    omega (
      arith,
      closed_by-append fd (s.calls ++ close_server s.server_socket) (close_each s.client_sockets),
      closed_by-append fd s.calls (close_server s.server_socket),
      closed_by-close_each fd s.client_sockets,
    ))

-- Where a server that runs is stopped and then the thread of each of its clients ends, every
-- descriptor is closed twice for each time that it stands in the list of the clients, besides the
-- closing of the server's own socket: `stop` closes it, and the deferred block does so again.
pub stop-ends :
    (s : Sockets) (fd : ℕ)
    → s.is_running ≡ true
    → closed_by fd (run (map ended s.client_sockets) (stop s)).calls
      ≡ closed_by fd s.calls
        + closed_by fd (close_server s.server_socket)
        + 2 * count fd s.client_sockets
stop-ends s fd running =
    omega (arith, ends-closed_by s.client_sockets (stop s) fd, stop-closed_by s fd running)
