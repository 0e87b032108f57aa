-- ===== src/Tests/ShellRuns.antt =====
-- The theorems of the shell at a reader that parses nothing.
use aevum.Prelude.{◌≡◌, refl, [], ◌∷◌, ◌++◌, Str, none, codes, arith}
use aevum.Client.{AevumClient}
use aevum.Client
use aevum.Shell.Braces.{Balanced, nothing, byte, block}
use aevum.Shell.Command.{Reader, show_response, process_command}
use aevum.Shell.Command.RoundTrip.{command, object, object_then, process_command-update}

abbrev plain_reader : Reader
plain_reader = record {
  Elem = Str;
  parse = λ s. none;
  parse_error = λ s. s;
  get_string = λ d k. none;
  get_int64 = λ d k. none;
  metric = λ d k. none;
  get_array = λ d k. none;
  match_user = λ s. none;
}

-- A server that answers with the request.
abbrev echo : AevumClient
echo = record { api_key = codes "ab"; send_request = λ s. s }

-- A query with an object in it, and a change.
abbrev inner : Str
inner = b'a' ∷ b'{' ∷ b'}' ∷ []

inner-Balanced : Balanced b'{' b'}' inner
inner-Balanced =
    byte b'a' (b'{' ∷ b'}' ∷ []) (omega arith) (omega arith) (block [] [] nothing nothing)

process_command-update_example :
    process_command plain_reader
      (command (codes "users") (codes "update") (object_then inner (codes ", " ++ object [])))
      echo
    ≡ show_response plain_reader
        (codes "update")
        (Client.update echo (codes "users") (object inner) (object []))
process_command-update_example =
    process_command-update plain_reader echo (codes "users") inner [] refl refl refl inner-Balanced
      nothing
