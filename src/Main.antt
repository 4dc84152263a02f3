-- ===== src/Main.antt =====
-- asciinema/__main__.py. `F` stands for Python's `float`, `le_zero` for `<= 0.0`, `to_float`, `to_int`
-- and `shown` for `float`, `int` and `str`; parse_args is that of `argparse`.
pub mod Arguments
pub mod Positive
mod Tests
use asciinema.Base.{
  ℕ, ◌||◌, not, if◌then◌else◌, Bool, true, false, String, Option, none, some, List, [], ◌∷◌, Text,
  bytes_eq, chars, Dict, ℤ, pos, negsuc,
}
use asciinema.Config.{
  Config, Upgraded, upgraded, config_error, os_error, Home, upgrade, get_config_home,
}
use asciinema.Main.Arguments.{Value, Argument, Settings, settings, parsers}

unfoldable pub valid_encoding : (Text → Text) → Option Text → Bool
unfolding bytes_eq
valid_encoding upper none = false
valid_encoding upper (some loc) =
    bytes_eq (upper loc) (chars "US-ASCII")
    || (bytes_eq (upper loc) (chars "UTF-8") || bytes_eq (upper loc) (chars "UTF8"))

-- `config.load`: without a place for the configuration an exception is raised, and an
-- `OSError` is not caught.
pub data Loaded : Type 0 where
  loaded : Config → Loaded
  not_loaded : Loaded
  no_home escaped : Loaded

abbrev loaded_of : Upgraded → Loaded
loaded_of (upgraded c) = loaded c
loaded_of (config_error c) = not_loaded
loaded_of (os_error c) = escaped

abbrev upgraded_in : Home → (Text → Config) → (Text → Text) → Text → Option Text → Loaded
upgraded_in place read strip uuid none = no_home
upgraded_in place read strip uuid (some home) = loaded_of (upgrade place strip uuid (read home))

-- `read` is what `configparser` reads in a directory, with the environment.
unfoldable pub load :
    Home
    → (Text → Config)
    → (Text → String → Text)
    → (Text → Bool)
    → (Text → Text)
    → Text
    → Dict Text
    → Loaded
unfolding upgrade get_config_home
load place read join isfile strip uuid env =
    upgraded_in place read strip uuid (get_config_home join isfile env)

-- What `parse_args` gives: the namespace of a command, or none without one; or it ends the program.
pub data Parsed (F : Type 0) : Type 0 where
  command : String → Dict (Value F) → Parsed F
  no_command : Parsed F
  system_exit : ℕ → Parsed F

-- What `main` returns, or what is raised; the command may raise too.
pub data Ended : Type 0 where
  returned : Option ℕ → Ended
  exited : ℕ → Ended
  raised : Ended

module _ {F : Type 0} (boolean : Text → Option Bool) (to_float : Text → Option F) (shown : F → Text)
    (one : F) (parse_args : Dict (List (Argument F)) → Parsed F)
    (execute : String → Dict (Value F) → Config → Ended) where
  unfoldable pub run_command : Config → Parsed F → Ended
  run_command c (command name args) = execute name args c
  run_command c no_command = returned (some 1)
  run_command c (system_exit code) = exited code

  abbrev parsed_with : Config → Option (Settings F) → Ended
  parsed_with c none = raised
  parsed_with c (some s) = run_command c (parse_args (parsers shown s))

  unfoldable pub with_config : Loaded → Ended
  unfolding run_command settings parsers
  with_config not_loaded = returned (some 1)
  with_config no_home = raised
  with_config escaped = raised
  with_config (loaded c) = parsed_with c (settings boolean to_float one c)

  unfoldable pub main : (Text → Text) → Option Text → Loaded → Ended
  unfolding valid_encoding with_config
  main upper locale config =
      if not (valid_encoding upper locale) then returned (some 1) else with_config config
