-- ===== src/Daemon/RoundTrip.antt =====
-- A configuration file with both keys is read back.
use aevum.Prelude.{
  ◌≡◌, refl, ap, ◌∙◌, true, false, ◌&&◌, [], ◌∷◌, ◌++◌, List, Option, none, some, Str, ℤ, lit,
  codes, all, is_empty, behind_text, starts_with, leb, ◌==◌, arith,
}
use aevum.Daemon.{
  returns, Settings, strip, strip_end, skip_gaps, checked_port, port_line, parse_line, parse_lines,
  parse_config,
}
use aevum.Daemon.Config.{IsPort}

abbrev pub IsDigits : Str → Type 0
IsDigits s = all (λ c. leb b'0' c && leb c b'9') s ≡ true

-- A text of digits does not hold the key of the data path.
no_path : (s : Str) → IsDigits s → behind_text (lit "dbPath:") s ≡ none
unfolding behind_text starts_with lit
no_path [] h = refl
no_path (c ∷ s) h =
    let other : (b'd' == c) ≡ false = ground (arith, h) in rw other (no_path s (ground (arith, h)))

-- Nor does it begin or end with a gap.
strip_end-digits : (s : Str) → IsDigits s → strip_end s ≡ s
unfolding strip_end
strip_end-digits [] h = refl
strip_end-digits (c ∷ s) h = ground (arith, h, strip_end-digits s)

strip-digits : (s : Str) → IsDigits s → strip (b' ' ∷ s) ≡ s
unfolding strip skip_gaps strip_end
strip-digits [] h = refl
strip-digits (c ∷ s) h = ground (arith, h, strip_end-digits (c ∷ s) h)

strip-space : (s : Str) → strip (b' ' ∷ s) ≡ strip s
unfolding strip skip_gaps
strip-space s = refl

module _ (stoi : Str → Option ℤ) where
  path_line :
      (path : Str) (s : Settings)
      → parse_line stoi (codes "dbPath: " ++ path) s ≡ returns (record s { data_path = strip path })
  unfolding parse_line behind_text starts_with lit
  path_line path s = ap (λ t. returns (record s { data_path = t })) (strip-space path)

  port_digits :
      (text : Str) (p : ℤ) (s : Settings)
      → IsDigits text
      → is_empty text ≡ false
      → stoi text ≡ some p
      → IsPort p
      → parse_line stoi (codes "port: " ++ text) s ≡ returns (record s { port = p })
  unfolding parse_line behind_text starts_with lit port_line checked_port
  port_digits text p s digits some_digit reads range =
      rw
        (
          no_path text digits,
          parse_line,
          strip-digits text digits,
          some_digit,
          reads,
          checked_port,
          range,
        )
        refl

  parse_lines-step :
      (line : Str) (lines : List Str) (s s' : Settings)
      → parse_line stoi line s ≡ returns s'
      → parse_lines stoi (line ∷ lines) s ≡ parse_lines stoi lines s'
  unfolding parse_lines
  parse_lines-step line lines s s' e = rw (e, parse_lines) refl

  last_step : (s : Settings) → parse_lines stoi [] s ≡ returns s
  unfolding parse_lines
  last_step s = refl

  -- A configuration file with the data path and a port in range, written in digits that `std::stoi`
  -- reads, sets both, whatever was set before, where the path neither begins nor ends with a space
  -- or a tab.
  pub parse_config-lines :
      (path text : Str) (p : ℤ) (s : Settings)
      → strip path ≡ path
      → IsDigits text
      → is_empty text ≡ false
      → stoi text ≡ some p
      → IsPort p
      → parse_config stoi (some ((codes "dbPath: " ++ path) ∷ (codes "port: " ++ text) ∷ [])) s
        ≡ returns (record { data_path = path; port = p })
  unfolding parse_config
  parse_config-lines path text p s bare digits some_digit reads range =
      let with_path = record s { data_path = strip path } in
      parse_lines-step (codes "dbPath: " ++ path) ((codes "port: " ++ text) ∷ []) s with_path
        (path_line path s)
      ∙ (parse_lines-step (codes "port: " ++ text) [] with_path (record with_path { port = p })
            (port_digits text p with_path digits some_digit reads range)
          ∙ last_step (record { data_path = strip path; port = p })
          ∙ ap (λ t. returns (record { data_path = t; port = p })) bare)
