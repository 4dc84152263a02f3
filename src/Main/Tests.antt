-- ===== src/Main/Tests.antt =====
-- The program with a configuration of a limit and a speed.
use asciinema.Base.{
  ◌-◌, if◌then◌else◌, Bool, true, false, String, str_eq, Option, none, some, List, [], ◌∷◌, Text,
  bytes_eq, chars, All, Dict, lookup, ℤ, pos, negsuc, ltb_ℤ, inl, inr, ◌≡◌, refl,
}
use asciinema.Config.{Config}
use asciinema.Config.Settings.{
  record_stdin, record_command, record_env, record_idle_time_limit, record_yes, record_quiet,
  play_idle_time_limit, play_speed,
}
use asciinema.Main.{
  Parsed, command, Ended, returned, loaded, valid_encoding, run_command, with_config, main,
}
use asciinema.Main.Arguments.{
  Value, absent, int, float, Argument, Settings, maybe_str, rec_arguments, play_arguments,
  positive_float_of, positive_int_of, settings,
}
use asciinema.Main.Positive.{convert, IsParsed, HasPositive, HasSpeed, arguments-HasPositive}

-- Numbers of one digit, or none with a sign.
abbrev to_float : Text → Option ℤ
to_float (d ∷ []) = some (pos (d - b'0'))
to_float (sign ∷ (d ∷ [])) = some (negsuc (d - b'1'))
to_float _ = none

abbrev le_zero : ℤ → Bool
le_zero x = ltb_ℤ x (pos 1)

abbrev shown : ℤ → Text
shown x = chars "2"

abbrev boolean : Text → Option Bool
boolean t = some (bytes_eq t (chars "yes"))

abbrev config : Config
config = record {
  env = [];
  option = λ section name.
      if str_eq name "speed"
      then some (chars "-1")
      else if str_eq name "idle_time_limit"
      then some (chars "2")
      else none;
  items = [];
  home_exists = true;
  config_file_exists = true;
  install_id_file = none;
}

abbrev options : Settings ℤ
options = record {
  stdin = false;
  command = none;
  env = chars "SHELL,TERM";
  record_limit = some (pos 2);
  yes = false;
  quiet = false;
  play_limit = some (pos 2);
  speed = negsuc 0;
}

settings_read : settings boolean to_float (pos 1) config ≡ some options
unfolding settings record_stdin record_command record_env record_idle_time_limit record_yes
    record_quiet play_idle_time_limit play_speed bytes_eq
settings_read = refl

-- `rec --cols 8`
abbrev rec_args : Dict (Value ℤ)
rec_args = ("cols", int (pos 8)) ∷ ("rows", absent) ∷ ("idle_time_limit", float (pos 2)) ∷ []

abbrev play_args : Dict (Value ℤ)
play_args = ("idle_time_limit", float (pos 2)) ∷ ("speed", float (negsuc 0)) ∷ []

rec-IsParsed : All (IsParsed to_float le_zero to_float rec_args) (rec_arguments shown options)
unfolding rec_arguments maybe_str convert positive_float_of positive_int_of lookup ltb_ℤ
rec-IsParsed = (
  tt,
  (
    tt,
    (
      tt,
      (
        tt,
        (
          tt,
          (
            tt,
            (
              tt,
              (
                (float (pos 2), refl, inr refl),
                (
                  (int (pos 8), refl, inl (chars "8", refl)),
                  ((absent, refl, inr refl), (tt, (tt, (tt, tt)))),
                ),
              ),
            ),
          ),
        ),
      ),
    ),
  ),
)

play-IsParsed : All (IsParsed to_float le_zero to_float play_args) (play_arguments shown options)
unfolding play_arguments maybe_str convert positive_float_of lookup ltb_ℤ
play-IsParsed = (
  (float (pos 2), refl, inr refl),
  ((float (negsuc 0), refl, inr refl), (tt, (tt, (tt, (tt, (tt, tt)))))),
)

arguments-HasPositive_example :
    HasPositive to_float le_zero to_float "idle_time_limit" rec_args
    × HasPositive to_float le_zero to_float "cols" rec_args
    × HasPositive to_float le_zero to_float "rows" rec_args
    × HasPositive to_float le_zero to_float "idle_time_limit" play_args
    × HasSpeed to_float le_zero to_float (negsuc 0) play_args
arguments-HasPositive_example =
    arguments-HasPositive to_float le_zero to_float shown options rec_args play_args rec-IsParsed
      play-IsParsed

abbrev parse_args : Dict (List (Argument ℤ)) → Parsed ℤ
parse_args parsers = command "play" play_args

abbrev execute : String → Dict (Value ℤ) → Config → Ended
execute name args c = returned (if str_eq name "play" then some 0 else none)

main_runs :
    main boolean to_float shown
      (pos 1)
      parse_args
      execute
      (λ t. t)
      (some (chars "UTF-8"))
      (loaded config)
    ≡ returned (some 0)
unfolding main valid_encoding with_config run_command settings record_stdin record_command
    record_env record_idle_time_limit record_yes record_quiet play_idle_time_limit play_speed
    bytes_eq
main_runs = refl
