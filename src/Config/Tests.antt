-- ===== src/Config/Tests.antt =====
-- Runs of asciinema/config.py.
use asciinema.Base.{none, some, [], ◌∷◌, Text, if◌then◌else◌, str_eq, true}
use asciinema.Config.{Config, Home}

-- A configuration of version 1.x, with a token in the section `user`.
abbrev old_config : Config
old_config = record {
  env = [];
  option = λ section name. if str_eq section "user" then some (b't' ∷ []) else none;
  items = ("DEFAULT", []) ∷ ("user", ("token", b't' ∷ []) ∷ []) ∷ [];
  home_exists = true;
  config_file_exists = true;
  install_id_file = none;
}

abbrev unchanged : Text → Text
unchanged t = t

abbrev home : Home
home = record { makes = true; writes = true; removes = true; left = none }
