-- ===== src/Shell/Main.antt =====
-- The main function of shell/main.cpp. `std::stoi` and the loop of the shell are arguments, the latter
-- by the requests that it sends.
pub mod Closing
use aevum.Prelude.{
  ◌⊎◌, inl, inr, not, Bool, ◌||◌, [], ◌∷◌, ◌++◌, List, Option, none, some, Str, ℤ, pos, lit, str_eq,
  ℕ, if◌then◌else◌, int_to_string,
}
use aevum.Daemon.{out_of_range}
use aevum.Client.Connection.{Os}
use aevum.Client.Session.{Session, new_session, connect, disconnect, destroyed, send_all}

-- The result of std::stoi: a number or an exception, with the text of its `what`.
pub data Stoi : Type 0 where
  number : ℤ → Stoi
  invalid_argument past_range : Str → Stoi

pub record Target : Type 0 where
  pub host : Str
  pub port : ℤ
  pub api_key : Str

-- What the arguments come to.
pub data Arguments : Type 0 where
  help : Arguments
  refused : Str → Arguments
  target : Target → Arguments

unfoldable pub defaults : Target
defaults = record { host = lit "127.0.0.1"; port = pos 55001; api_key = lit "root" }

port_refusal : Str
port_refusal = lit "Error: Port number must be between 1 and 65535."

unfoldable pub port_of : Stoi → Str ⊎ ℤ
unfolding port_refusal
port_of (number parsed_port) =
    if out_of_range parsed_port then inl port_refusal else inr parsed_port
port_of (invalid_argument what) = inl (lit "Error: Invalid number format for port. " ++ what)
port_of (past_range what) = inl (lit "Error: Port number out of range. " ++ what)

key_of : List Str → Str
unfolding defaults
key_of [] = defaults.api_key
key_of (key ∷ more) = key

-- The arguments behind the host.
with_host : (Str → Stoi) → Str → List Str → Arguments
unfolding port_of key_of defaults
with_host stoi host [] = target (record defaults { host = host })
with_host stoi host (text ∷ more) = elim (port_of (stoi text)) [
  | inl message ↦ refused message
  | inr port ↦ target (record { host = host; port = port; api_key = key_of more })
]

-- The arguments behind the name of the program.
unfoldable pub read_arguments : (Str → Stoi) → List Str → Arguments
unfolding with_host defaults
read_arguments stoi [] = target defaults
read_arguments stoi (host ∷ more) =
    if str_eq host (lit "--help") || str_eq host (lit "-h") then help else with_host stoi host more

module _ (os : Target → Os) where
  -- What is left after a session with a target, and the exit code.
  unfoldable pub talk : (t : Target) → List Str → (os t).State → ℕ × (os t).State
  talk t payloads st =
      let (connected, s) = connect (os t) (new_session (os t) t.api_key st) in
      if not connected
      then (1, destroyed (os t) s)
      else (0, destroyed (os t) (disconnect (os t) (send_all (os t) payloads s)))
