-- ===== src/Tests/NetRuns.antt =====
-- The theorems of connections at a socket that takes two bytes in each call, and of the descriptors.
use aevum.Prelude.{
  ℕ, zero, suc, ◌+◌, ◌*◌, ◌≡◌, ◌≤◌, ◌<◌, refl, ap, sym, subst, Bool, true, false, ltb, ◌&&◌, ◌==◌,
  if◌then◌else◌, [], ◌∷◌, ◌++◌, map, some, Str, lit, codes, length, take, arith,
}
use aevum.Client.{AevumClient}
use aevum.Server.Net.{Net, NetLaws, over, send_response, serve}
use aevum.Server.Net.Delivery.{send_response-Delivers}
use aevum.Server.Net.Exit.{serve-insert_exit, serve-farewell, insert_request, with_exit}
use aevum.Client.Session.{farewell}
use aevum.Server.Sockets.{Sockets, ended, stop, run, close_server}
use aevum.Server.Sockets.Closing.{closed_by, count, stop-ends}
use aevum.Client.Connection.{Os, OsLaws, failed}
use aevum.Shell.Main.{talk, defaults}
use aevum.Shell.Main.Closing.{talk-closes}
use aevum.Tests.Memory.{memory}
use aevum.Tests.Disk.{disk}
use aevum.Tests.CoreRuns.{answers}
use aevum.Tests.ServerRuns.{one_request, first_draws, new_server}

-- A socket whose state is what the peer was sent, and which hands out a text in each call of `recv`.
abbrev two_bytes : Str → Net
two_bytes text = record {
  State = Str;
  is_running = λ st. true;
  recv = λ n st. (some (take n text), st);
  send = λ s st. (some (length (take 2 s)), st ++ take 2 s);
  taken = λ st. st;
}

take-length : (n : ℕ) (s : Str) → take (length (take n s)) s ≡ take n s
take-length zero s = refl
take-length (suc n) [] = refl
take-length (suc n) (c ∷ s) = ap (λ r. c ∷ r) (take-length n s)

length-take : (n : ℕ) (s : Str) → length (take n s) ≤ length s
length-take zero s = omega arith
length-take (suc n) [] = omega arith
length-take (suc n) (c ∷ s) = omega (arith, length-take n s)

progress : (s : Str) → 0 < length s → 0 < length (take 2 s)
progress [] h = h
progress (c ∷ s) h = omega arith

taken_count : (s : Str) (k : ℕ) → some (length (take 2 s)) ≡ some k → length (take 2 s) ≡ k
taken_count s k h = cc

length-take_le : (n : ℕ) (s : Str) → length (take n s) ≤ n
length-take_le zero s = omega arith
length-take_le (suc n) [] = omega arith
length-take_le (suc n) (c ∷ s) = omega (arith, length-take_le n s)

two_bytes_laws : (text : Str) → NetLaws (two_bytes text)
two_bytes_laws text = record {
  recv_fits = λ n st s h.
      let same : take n text ≡ s = cc in subst (λ x. length x ≤ n) same (length-take_le n text);
  send_takes = λ s st k h.
      subst (λ n. (n ≤ length s) × (st ++ take 2 s ≡ st ++ take n s)) (taken_count s k h)
        (length-take 2 s, ap (λ t. st ++ t) (sym (take-length 2 s)));
  send_progress = λ s st k h some_bytes. omega (arith, taken_count s k h, progress s some_bytes);
}

send_response-Delivers_example :
    (r : Bool × Str) × (send_response (two_bytes []) (codes "hello") (codes "> ") ≡ some r)
    × (r.0 ≡ true → r.1 ≡ codes "> " ++ codes "hello")
send_response-Delivers_example =
    send_response-Delivers (two_bytes []) (two_bytes_laws []) (codes "hello") (codes "> ")

abbrev client : AevumClient
client = record { api_key = codes "ab"; send_request = λ s. [] }

-- Its request for a document with a menu whose action is the text.
abbrev menu_request : Str
menu_request = insert_request client (codes "notes") (with_exit (codes "{\"menu\":{") (codes "}}"))

serve-insert_exit_example :
    let (turn, srv', st') =
      serve memory disk answers one_request
        (two_bytes menu_request)
        (first_draws ∷ [])
        new_server
        [] in
    (turn ≡ over) × (srv' ≡ new_server)
unfolding lit aevum.Client.build_payload
serve-insert_exit_example =
    serve-insert_exit memory disk answers one_request (two_bytes menu_request)
      (two_bytes_laws menu_request) first_draws [] client (codes "notes") (codes "{\"menu\":{")
      (codes "}}") new_server [] refl refl

serve-farewell_example :
    let (turn, srv', st') =
      serve memory disk answers one_request
        (two_bytes (farewell (codes "ab")))
        (first_draws ∷ [])
        new_server
        [] in
    (turn ≡ over) × (srv' ≡ new_server)
unfolding lit farewell aevum.Client.build_payload
serve-farewell_example =
    serve-farewell memory disk answers one_request (two_bytes (farewell (codes "ab")))
      (two_bytes_laws (farewell (codes "ab"))) first_draws [] (codes "ab") new_server [] refl refl

-- A server that listens on 3 and serves 5 and 6.
abbrev serving : Sockets
serving = record {
  is_running = true;
  server_socket = some 3;
  client_sockets = 5 ∷ 6 ∷ [];
  calls = [];
}

stop-ends_example :
    closed_by 5 (run (map ended serving.client_sockets) (stop serving)).calls
    ≡ closed_by 5 serving.calls
      + closed_by 5 (close_server serving.server_socket)
      + 2 * count 5 serving.client_sockets
stop-ends_example = stop-ends serving 5 refl

-- An operating system that gives a new descriptor each time; every answer fails to arrive. The state
-- is the next descriptor and the marks of those that were not closed.
abbrev numbering : Os
numbering = record {
  State = ℕ × (ℕ → Bool);
  socket = λ st. (some st.0, (st.0 + 1, λ g. if g == st.0 then true else st.1 g));
  parses_host = true;
  connect = λ fd st. (true, st);
  close = λ fd st. (st.0, λ g. if g == fd then false else st.1 g);
  send = λ fd s st. (some (length s), st);
  recv = λ fd n st. (failed, st);
}

numbering_laws : OsLaws numbering
numbering_laws = record {
  is_open = λ st g. ltb g st.0 && st.1 g;
  socket_fails = λ st g h. absurd cc;
  socket_opens = λ st fd h. ground (arith, h);
  close_closes = λ fd st g. ground arith;
  connect_keeps = λ fd st g. refl;
  send_keeps = λ fd s st g. refl;
  recv_keeps = λ fd n st g. refl;
}

-- The answers arrive nowhere, so that the shell connects again for the second request. The
-- descriptors 0 to 3 were open.
talk-closes_example :
    numbering_laws.is_open
      (talk (λ t. numbering) defaults (codes "{}" ∷ codes "{}" ∷ []) (4, λ g. true)).1
      3
    ≡ numbering_laws.is_open (4, λ g. true) 3
talk-closes_example =
    talk-closes (λ t. numbering) defaults numbering_laws (codes "{}" ∷ codes "{}" ∷ [])
      (4, λ g. true) 3
