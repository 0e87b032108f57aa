-- ===== src/Daemon/Config.antt =====
-- What the configuration can come to.
use aevum.Prelude.{
  ℕ, ◌≡◌, ◌≤◌, refl, false, [], ◌∷◌, List, Option, none, some, Str, ℤ, pos, negsuc, lit, is_empty,
  str_eq, behind_text, arith, inl, inr, Bool-cases, Option-cases,
}
use aevum.Daemon.{
  Outcome, returns, throws, Settings, strip, out_of_range, checked_port, port_line, parse_line,
  parse_lines, parse_config, defaults, positional, from_file, configure,
}

abbrev pub IsPort : ℤ → Type 0
IsPort n = out_of_range n ≡ false

-- The settings that come out have a port from 1 to 65535.
abbrev pub HasPort : Outcome Settings → Type 0
HasPort (throws e) = Unit {0}
HasPort (returns s) = (n : ℕ) × (s.port ≡ pos n) × (1 ≤ n) × (n ≤ 65535)

module _ (stoi : Str → Option ℤ) where
  in_range :
      (s : Settings) (p : ℤ) → out_of_range p ≡ false → HasPort (returns (record s { port = p }))
  unfolding out_of_range
  in_range s (negsuc n) h = absurd cc
  in_range s (pos n) h = (n, refl, ground arith, ground arith)

  checked_port-HasPort : (s : Settings) (p : Option ℤ) → HasPort (checked_port stoi s p)
  unfolding checked_port
  checked_port-HasPort s none = tt
  checked_port-HasPort s (some p) = elim (Bool-cases (out_of_range p)) [
    | inl bad ↦ rw bad tt
    | inr good ↦ rw good (in_range s p good)
  ]

  port_line-HasPort :
      (s : Settings) (t : Option Str) → HasPort (returns s) → HasPort (port_line stoi s t)
  unfolding port_line
  port_line-HasPort s none h = h
  port_line-HasPort s (some t) h = elim (Bool-cases (is_empty (strip t))) [
    | inl e ↦ rw e h
    | inr e ↦ rw e (checked_port-HasPort s (stoi (strip t)))
  ]

  parse_line-HasPort :
      (line : Str) (s : Settings) → HasPort (returns s) → HasPort (parse_line stoi line s)
  unfolding parse_line
  parse_line-HasPort line s h = elim (Option-cases (behind_text (lit "dbPath:") line)) [
    | inl e ↦ rw (e, HasPort) (port_line-HasPort s (behind_text (lit "port:") line) h)
    | inr (path, e) ↦ rw (e, HasPort) h
  ]

  then_lines :
      (o : Outcome Settings) (f : Settings → Outcome Settings)
      → ((s : Settings) → HasPort (returns s) → HasPort (f s))
      → HasPort o
      → HasPort (elim o as (λ _. Outcome Settings) [ throws e ↦ throws e | returns s ↦ f s ])
  then_lines (throws e) f keeps h = tt
  then_lines (returns s) f keeps h = keeps s h

  parse_lines-HasPort :
      (lines : List Str) (s : Settings) → HasPort (returns s) → HasPort (parse_lines stoi lines s)
  unfolding parse_lines
  parse_lines-HasPort [] s h = h
  parse_lines-HasPort (line ∷ lines) s h =
      then_lines (parse_line stoi line s) (parse_lines stoi lines) (parse_lines-HasPort lines)
        (parse_line-HasPort line s h)

  parse_config-HasPort :
      (file : Option (List Str)) (s : Settings)
      → HasPort (returns s)
      → HasPort (parse_config stoi file s)
  unfolding parse_config
  parse_config-HasPort none s h = tt
  parse_config-HasPort (some lines) s h = parse_lines-HasPort lines s h

  default_port : (path : Str) → HasPort (returns (record (defaults stoi) { data_path = path }))
  default_port path = (55001, refl, omega arith, omega arith)

  -- The outcome, if there is one.
  abbrev pub Settles : Option (Outcome Settings) → Type 0
  Settles none = Unit {0}
  Settles (some o) = HasPort o

  positional-HasPort : (path : Str) (more : List Str) → HasPort (positional stoi path more)
  unfolding positional
  positional-HasPort path [] = default_port path
  positional-HasPort path (port ∷ more) =
      checked_port-HasPort (record (defaults stoi) { data_path = path }) (stoi port)

  from_file-HasPort :
      (open_file : Str → Option (List Str)) (more : List Str)
      → HasPort (from_file stoi open_file more)
  unfolding from_file
  from_file-HasPort open_file [] = positional-HasPort (lit "--config") []
  from_file-HasPort open_file (path ∷ more) =
      parse_config-HasPort (open_file path) (defaults stoi) (default_port (lit "./aevum_data"))

  -- Whatever the arguments and the configuration file are, and whatever `std::stoi` makes of a text,
  -- the daemon shows its help, stops with an exception, or comes to a port from 1 to 65535.
  pub configure-Settles :
      (open_file : Str → Option (List Str)) (args : List Str)
      → Settles (configure stoi open_file args)
  unfolding configure
  configure-Settles open_file [] = default_port (lit "./aevum_data")
  configure-Settles open_file (arg1 ∷ more) = elim (Bool-cases (str_eq arg1 (lit "--help"))) [
    | inl help ↦ rw (help, Settles) tt
    | inr other ↦ elim (Bool-cases (str_eq arg1 (lit "--config"))) [
      | inl config ↦ rw (other, config, Settles) (from_file-HasPort open_file more)
      | inr plain ↦ rw (other, plain, Settles) (positional-HasPort arg1 more)
    ]
  ]
