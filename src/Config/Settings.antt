-- ===== src/Config/Settings.antt =====
-- asciinema/config.py: the options that the commands read. `boolean` and `float` stand for the
-- conversions of `getboolean` and `getfloat`, which may raise a `ValueError`.
use asciinema.Base.{Bool, true, false, Option, none, some, Text, chars, lookup}
use asciinema.Config.{Config, Key, get_key}

-- `fallback` where the option is missing.
abbrev or_fallback {ℓ} : {A : Type ℓ} → (Text → Option A) → Option A → Option Text → Option A
or_fallback convert fallback none = fallback
or_fallback convert fallback (some t) = convert t

abbrev text_or : Text → Option Text → Text
text_or fallback none = fallback
text_or fallback (some t) = t

unfoldable pub api_url : Config → Text
unfolding lookup
api_url c =
    text_or (text_or (chars "https://asciinema.org") (c.option "api" "url"))
      (lookup "ASCIINEMA_API_URL" c.env)

unfoldable pub record_command : Config → Option Text
record_command c = c.option "record" "command"

unfoldable pub record_env : Config → Text
record_env c = text_or (chars "SHELL,TERM") (c.option "record" "env")

unfoldable pub notifications_command : Config → Option Text
notifications_command c = c.option "notifications" "command"

-- Where `none` is the `ValueError`.
module _ (boolean : Text → Option Bool) where
  unfoldable pub record_stdin : Config → Option Bool
  record_stdin c = or_fallback boolean (some false) (c.option "record" "stdin")

  unfoldable pub record_yes : Config → Option Bool
  record_yes c = or_fallback boolean (some false) (c.option "record" "yes")

  unfoldable pub record_quiet : Config → Option Bool
  record_quiet c = or_fallback boolean (some false) (c.option "record" "quiet")

  unfoldable pub notifications_enabled : Config → Option Bool
  notifications_enabled c = or_fallback boolean (some true) (c.option "notifications" "enabled")

module _ (F : Type 0) (float : Text → Option F) where
  -- A number or `None`.
  abbrev float_or_none : Text → Option (Option F)
  float_or_none t = elim (float t) [ none ↦ none | some x ↦ some (some x) ]

  -- The name of versions before 2.0 is read first, whether or not it counts.
  abbrev limit_or : Option (Option F) → Option Text → Option (Option F)
  limit_or none option = none
  limit_or (some fallback) option = or_fallback float_or_none (some fallback) option

  unfoldable pub record_idle_time_limit : Config → Option (Option F)
  record_idle_time_limit c =
      limit_or (or_fallback float_or_none (some none) (c.option "record" "maxwait"))
        (c.option "record" "idle_time_limit")

  unfoldable pub play_idle_time_limit : Config → Option (Option F)
  play_idle_time_limit c =
      limit_or (or_fallback float_or_none (some none) (c.option "play" "maxwait"))
        (c.option "play" "idle_time_limit")

  unfoldable pub play_speed : F → Config → Option F
  play_speed one c = or_fallback float (some one) (c.option "play" "speed")

module _ (upper : Text → Text) where
  unfoldable pub record_prefix_key : Config → Key
  unfolding get_key
  record_prefix_key c = get_key upper c "record" "prefix_key" none

  unfoldable pub record_pause_key : Config → Key
  unfolding get_key
  record_pause_key c = get_key upper c "record" "pause_key" (some (chars "C-\\"))

  unfoldable pub record_add_marker_key : Config → Key
  unfolding get_key
  record_add_marker_key c = get_key upper c "record" "add_marker_key" none

  unfoldable pub play_pause_key : Config → Key
  unfolding get_key
  play_pause_key c = get_key upper c "play" "pause_key" (some (chars " "))

  unfoldable pub play_step_key : Config → Key
  unfolding get_key
  play_step_key c = get_key upper c "play" "step_key" (some (chars "."))

  unfoldable pub play_next_marker_key : Config → Key
  unfolding get_key
  play_next_marker_key c = get_key upper c "play" "next_marker_key" (some (chars "]"))
