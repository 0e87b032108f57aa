-- ===== src/Daemon.antt =====
-- main.cpp: the configuration of the daemon. The file system and `std::stoi` are parameters. What
-- the two threads of `main` do with signals is left out; `Server.Sockets` has the calls of `stop`.
pub mod Config
pub mod RoundTrip
use aevum.Prelude.{
  ℕ, ◌+◌, Bool, true, false, not, ◌||◌, ◌&&◌, [], ◌∷◌, List, Option, none, some, Str, ℤ, pos,
  negsuc, lit, ltb, leb, is_empty, str_eq, has_text, behind_text, if◌then◌else◌, ◌==◌,
}

-- What may be thrown: a file that does not open, std::stoi, and a port out of range.
pub data Thrown : Type 0 where
  no_file not_a_number port_range : Thrown

pub data Outcome {ℓ} (A : Type ℓ) : Type ℓ where
  returns : A → Outcome A
  throws : Thrown → Outcome A

pub record Settings : Type 0 where
  pub data_path : Str
  pub port : ℤ

-- " \t"
abbrev pub is_gap : ℕ → Bool
is_gap c = (c == 32) || (c == 9)

skip_gaps : Str → Str
skip_gaps [] = []
skip_gaps (c ∷ s) = let rest = skip_gaps s in if is_gap c then rest else c ∷ s

strip_end : Str → Str
strip_end [] = []
strip_end (c ∷ s) = let rest = strip_end s in if is_empty rest && is_gap c then [] else c ∷ rest

-- From find_first_not_of to find_last_not_of; empty where there is no such byte.
unfoldable pub strip : Str → Str
unfolding skip_gaps strip_end
strip s = strip_end (skip_gaps s)

-- parsed_port < 1 || parsed_port > 65535
unfoldable pub out_of_range : ℤ → Bool
out_of_range (negsuc n) = true
out_of_range (pos n) = leb n 0 || leb 65536 n

module _ (stoi : Str → Option ℤ) where
  checked_port : Settings → Option ℤ → Outcome Settings
  unfolding out_of_range
  checked_port s none = throws not_a_number
  checked_port s (some parsed_port) =
      if out_of_range parsed_port
      then throws port_range
      else returns (record s { port = parsed_port })

  -- The text behind `port:`, if the line has it.
  port_line : Settings → Option Str → Outcome Settings
  unfolding checked_port strip
  port_line s none = returns s
  port_line s (some port_str) =
      if is_empty (strip port_str) then returns s else checked_port s (stoi (strip port_str))

  -- One line of the file.
  unfoldable pub parse_line : Str → Settings → Outcome Settings
  unfolding port_line strip
  parse_line line s = elim (behind_text (lit "dbPath:") line) [
    | some path ↦ returns (record s { data_path = strip path })
    | none ↦ port_line s (behind_text (lit "port:") line)
  ]

  unfoldable pub parse_lines : List Str → Settings → Outcome Settings
  parse_lines [] s = returns s
  parse_lines (line ∷ lines) s = elim (parse_line line s) [
    | throws e ↦ throws e
    | returns s' ↦ parse_lines lines s'
  ]

  -- parse_config, with the lines of the file if it opens
  unfoldable pub parse_config : Option (List Str) → Settings → Outcome Settings
  unfolding parse_lines
  parse_config none s = throws no_file
  parse_config (some lines) s = parse_lines lines s

  abbrev pub defaults : Settings
  defaults = record { data_path = lit "./aevum_data"; port = pos 55001 }

  positional : Str → List Str → Outcome Settings
  unfolding checked_port
  positional path [] = returns (record defaults { data_path = path })
  positional path (port ∷ more) = checked_port (record defaults { data_path = path }) (stoi port)

  from_file : (Str → Option (List Str)) → List Str → Outcome Settings
  unfolding positional parse_config
  from_file open_file [] = positional (lit "--config") []
  from_file open_file (path ∷ more) = parse_config (open_file path) defaults

  -- The part of `main` that reads the arguments behind the program's name. `none` is the help.
  unfoldable pub configure : (Str → Option (List Str)) → List Str → Option (Outcome Settings)
  unfolding positional from_file
  configure open_file [] = some (returns defaults)
  configure open_file (arg1 ∷ more) =
      if str_eq arg1 (lit "--help")
      then none
      else if str_eq arg1 (lit "--config")
      then some (from_file open_file more)
      else some (positional arg1 more)
