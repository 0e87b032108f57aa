-- ===== src/Tests/DaemonRuns.antt =====
-- The configuration at a reader of one number.
use aevum.Prelude.{
  ◌≡◌, refl, [], ◌∷◌, ◌++◌, List, Option, none, some, Str, ℤ, pos, codes, str_eq, if◌then◌else◌,
}
use aevum.Daemon.{returns, Settings, strip, out_of_range, parse_config, configure}
use aevum.Daemon.Config.{Settles, configure-Settles}
use aevum.Daemon.RoundTrip.{parse_config-lines}

-- std::stoi of three texts.
abbrev three_numbers : Str → Option ℤ
three_numbers s =
    if str_eq s (codes "80")
    then some (pos 80)
    else if str_eq s (codes "0")
    then some (pos 0)
    else if str_eq s (codes "70000")
    then some (pos 70000)
    else none

abbrev one_file : Str → Option (List Str)
one_file path = some (codes "port: 80" ∷ [])

abbrev config_args : List Str
config_args = codes "--config" ∷ codes "aevum.yaml" ∷ []

configure-Settles_example : Settles three_numbers (configure three_numbers one_file config_args)
configure-Settles_example = configure-Settles three_numbers one_file config_args

abbrev old_settings : Settings
old_settings = record { data_path = []; port = pos 1 }

parse_config-lines_example :
    parse_config three_numbers
      (some ((codes "dbPath: " ++ codes "/data") ∷ (codes "port: " ++ codes "80") ∷ []))
      old_settings
    ≡ returns (record { data_path = codes "/data"; port = pos 80 })
unfolding strip out_of_range str_eq
parse_config-lines_example =
    parse_config-lines three_numbers (codes "/data") (codes "80") (pos 80) old_settings refl refl
      refl refl refl
