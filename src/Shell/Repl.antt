-- ===== src/Shell/Repl.antt =====
-- `run` of shell/repl/repl.cpp. The lines that linenoise hands out are a list of C strings, which
-- ends where linenoise gives none; the history file and the screen are kept as the calls made.
use mathlib.Core.List.{append_assoc}
use aevum.Prelude.{
  ◌≡◌, refl, ap, sym, ◌∙◌, Bool, true, false, ◌||◌, [], ◌∷◌, ◌++◌, List, Option, none, some, Str,
  lit, is_empty, str_eq, if◌then◌else◌, arith, inl, inr, Bool-cases,
}
use aevum.Util.Strings.{trim}
use aevum.Client.{AevumClient}
use aevum.Shell.Command.{Reader, Printed, out, process_command}

pub data Effect : Type 0 where
  history_load history_add history_save : Str → Effect
  clear_screen : Effect
  printed : List Printed → Effect

abbrev history_file : Str
history_file = lit ".aevum_history"

-- std::getenv of HOME and XDG_RUNTIME_DIR
pub record Environment : Type 0 where
  pub home : Option Str
  pub runtime_dir : Option Str

-- The directory, if it is set and not empty.
abbrev pub set_dir : Option Str → Option Str
set_dir none = none
set_dir (some s) = if is_empty s then none else some s

abbrev in_dir : Option Str → Str → Str
in_dir none other = other
in_dir (some dir) other = dir ++ (lit "/" ++ history_file)

unfoldable pub history_path : Environment → Str
history_path env =
    in_dir (set_dir env.home) (in_dir (set_dir env.runtime_dir) (lit "/tmp/" ++ history_file))

unfoldable pub print_help : List Printed
print_help =
    out (
      lit "\nShell Commands:\n"
      ++ (lit "  help                          Display this help message\n"
          ++ (lit "  clear                         Clear the terminal screen\n"
              ++ (lit "  exit | quit                   Exit the AevumDB shell\n\n"
                  ++ (lit "Data Operations:\n"
                      ++ (lit "  db.<coll>.find(<query>)       Find documents matching the query\n"
                          ++ (lit
                                "  db.<coll>.insert(<doc>)       Insert a new document into the collection\n"
                              ++ (lit
                                    "  db.<coll>.update(<q>, <u>)    Update documents matching the query\n"
                                  ++ (lit
                                        "  db.<coll>.delete(<query>)     Delete documents matching the query\n"
                                      ++ (lit
                                            "  db.<coll>.count(<query>)      Count documents matching the query\n\n"
                                          ++ (lit "Administrative:\n"
                                              ++ (lit
                                                    "  db.<coll>.set_schema(<json>)  Set validation schema for a collection\n"
                                                  ++ (lit
                                                        "  db.create_user(u, r)          Create a database user with a role\n"
                                                      ++ (lit
                                                            "                                Roles: ADMIN, READ_WRITE, READ_ONLY\n\n"
                                                          ++ (lit "Infrastructure:\n"
                                                            ++ (lit
                                                            "  /health                       Display shell and server health status\n"
                                                            ++ (lit
                                                            "  /metrics                      Retrieve real-time performance metrics\n\n"
                                                            ++ lit
                                                            "Documentation: https://github.com/aevumdb/aevum\n\n")))))))))))))))))
    ∷ []

module _ (r : Reader) (client : AevumClient) (path : Str) where
  -- A line that leaves the loop.
  abbrev pub leaves : Str → Bool
  leaves line = str_eq (trim line) (lit "exit") || str_eq (trim line) (lit "quit")

  -- The effects of a line that does not leave the loop, behind the history.
  directive : Str → List Effect
  unfolding print_help
  directive trimmed =
      if str_eq trimmed (lit "help")
      then printed print_help ∷ []
      else if str_eq trimmed (lit "clear")
      then clear_screen ∷ []
      else printed (process_command r trimmed client) ∷ []

  -- The loop; whether a line left it.
  unfoldable pub loop : List Str → List Effect × Bool
  unfolding directive
  loop [] = ([], false)
  loop (line ∷ lines) =
      let (rest, left) = loop lines in
      if is_empty (trim line)
      then (rest, left)
      else if leaves line
      then (history_add line ∷ (history_save path ∷ []), true)
      else (history_add line ∷ (history_save path ∷ (directive (trim line) ++ rest)), left)

  -- Once a line has left the loop, the lines behind it are not read: what was done is what the lines
  -- before do, and then the history.
  pub loop-leaves :
      (before after : List Str) (line : Str)
      → (loop before).1 ≡ false
      → is_empty (trim line) ≡ false
      → leaves line ≡ true
      → loop (before ++ (line ∷ after))
        ≡ ((loop before).0 ++ (history_add line ∷ (history_save path ∷ [])), true)
  unfolding loop
  loop-leaves [] after line stays named h = rw (named, h) refl
  loop-leaves (l ∷ before) after line stays named h = elim (Bool-cases (is_empty (trim l))) [
    | inl blank ↦ rw blank (loop-leaves before after line (rw blank at stays) named h)
    | inr some_text ↦ elim (Bool-cases (leaves l)) [
      | inl left ↦ absurd (ground (arith, stays, some_text, left))
      | inr next ↦
          let first = directive (trim l) in
          let last = history_add line ∷ (history_save path ∷ []) in
          let ih = loop-leaves before after line (rw (some_text, next) at stays) named h in
          rw (some_text, next)
            (ap (λ x. (history_add l ∷ (history_save path ∷ (first ++ x.0)), x.1)) ih
              ∙ ap (λ t. (history_add l ∷ (history_save path ∷ t), true))
                  (sym (append_assoc first (loop before).0 last)))
    ]
  ]

unfoldable pub run : Reader → AevumClient → Environment → List Str → List Effect
unfolding loop history_path
run r client env lines =
    history_load (history_path env) ∷ (loop r client (history_path env) lines).0
