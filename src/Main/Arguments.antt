-- ===== src/Main/Arguments.antt =====
-- asciinema/__main__.py: the parsers of the commands, as `add_argument` declares them, less their
-- texts of help.
use asciinema.Base.{
  ◌>>=◌, if◌then◌else◌, Bool, false, String, Option, none, some, List, [], ◌∷◌, Text, Dict, ℤ,
  ltb_ℤ, pos,
}
use asciinema.Config.{Config}
use asciinema.Config.Settings.{
  record_stdin, record_command, record_env, record_idle_time_limit, record_yes, record_quiet,
  play_idle_time_limit, play_speed,
}

pub data Value (F : Type 0) : Type 0 where
  absent : Value F
  flag : Bool → Value F
  text : Text → Value F
  texts : List Text → Value F
  int : ℤ → Value F
  float : F → Value F

-- What is stored, and the `type` that converts it.
pub data Action : Type 0 where
  store store_true positive_float positive_int : Action
  choice : List String → Action

pub data Count : Type 0 where
  single optional some_more : Count

-- `dest` is the name in the namespace.
pub record Argument (F : Type 0) : Type 0 where
  pub flags : List String
  pub dest : String
  pub action : Action
  pub nargs : Count
  pub default : Value F

-- The options that the parsers read.
pub record Settings (F : Type 0) : Type 0 where
  pub stdin : Bool
  pub command : Option Text
  pub env : Text
  pub record_limit : Option F
  pub yes : Bool
  pub quiet : Bool
  pub play_limit : Option F
  pub speed : F

module _ {F : Type 0} where
  -- A text that may be `None`.
  abbrev optional_text : Option Text → Value F
  optional_text none = absent
  optional_text (some t) = text t

  -- `maybe_str`
  unfoldable pub maybe_str : (F → Text) → Option F → Value F
  maybe_str shown none = absent
  maybe_str shown (some x) = text (shown x)

  abbrev option : List String → String → Action → Value F → Argument F
  option flags dest action default = record {
    flags = flags;
    dest = dest;
    action = action;
    nargs = single;
    default = default;
  }

  unfoldable pub rec_arguments : (F → Text) → Settings F → List (Argument F)
  unfolding maybe_str
  rec_arguments shown s =
      option ("--stdin" ∷ []) "stdin" store_true (flag s.stdin)
      ∷ option ("--append" ∷ []) "append" store_true (flag false)
      ∷ option ("--raw" ∷ []) "raw" store_true (flag false)
      ∷ option ("--overwrite" ∷ []) "overwrite" store_true (flag false)
      ∷ option ("-c" ∷ "--command" ∷ []) "command" store (optional_text s.command)
      ∷ option ("-e" ∷ "--env" ∷ []) "env" store (text s.env)
      ∷ option ("-t" ∷ "--title" ∷ []) "title" store absent
      ∷ option ("-i" ∷ "--idle-time-limit" ∷ []) "idle_time_limit" positive_float
          (maybe_str shown s.record_limit)
      ∷ option ("--cols" ∷ []) "cols" positive_int absent
      ∷ option ("--rows" ∷ []) "rows" positive_int absent
      ∷ option ("-y" ∷ "--yes" ∷ []) "yes" store_true (flag s.yes)
      ∷ option ("-q" ∷ "--quiet" ∷ []) "quiet" store_true (flag s.quiet)
      ∷ record {
        flags = [];
        dest = "filename";
        action = store;
        nargs = optional;
        default = text [];
      }
      ∷ []

  unfoldable pub play_arguments : (F → Text) → Settings F → List (Argument F)
  unfolding maybe_str
  play_arguments shown s =
      option ("-i" ∷ "--idle-time-limit" ∷ []) "idle_time_limit" positive_float
        (maybe_str shown s.play_limit)
      ∷ option ("-s" ∷ "--speed" ∷ []) "speed" positive_float (float s.speed)
      ∷ option ("-l" ∷ "--loop" ∷ []) "loop" store_true (flag false)
      ∷ option ("-m" ∷ "--pause-on-markers" ∷ []) "pause_on_markers" store_true (flag false)
      ∷ option ("--out-fmt" ∷ []) "out_fmt" (choice ("raw" ∷ "asciicast" ∷ []))
          (text (b'r' ∷ b'a' ∷ b'w' ∷ []))
      ∷ option ("--stream" ∷ []) "stream" (choice ("o" ∷ "i" ∷ [])) absent
      ∷ option [] "filename" store absent
      ∷ []

  unfoldable pub cat_arguments : List (Argument F)
  cat_arguments =
      record { flags = []; dest = "filename"; action = store; nargs = some_more; default = absent }
      ∷ []

  unfoldable pub upload_arguments : List (Argument F)
  upload_arguments = option [] "filename" store absent ∷ []

  -- The commands, with their arguments.
  unfoldable pub parsers : (F → Text) → Settings F → Dict (List (Argument F))
  unfolding rec_arguments play_arguments cat_arguments upload_arguments
  parsers shown s =
      ("rec", rec_arguments shown s)
      ∷ ("play", play_arguments shown s)
      ∷ ("cat", cat_arguments)
      ∷ ("upload", upload_arguments)
      ∷ ("auth", [])
      ∷ []

  -- The `type` of an argument; `none` where it raises.
  unfoldable pub positive_float_of : (Text → Option F) → (F → Bool) → Text → Option (Value F)
  positive_float_of to_float le_zero t = elim (to_float t) [
    | none ↦ none
    | some x ↦ if le_zero x then none else some (float x)
  ]

  unfoldable pub positive_int_of : (Text → Option ℤ) → Text → Option (Value F)
  positive_int_of to_int t = elim (to_int t) [
    | none ↦ none
    | some n ↦ if ltb_ℤ n (pos 1) then none else some (int n)
  ]

  -- The options, in the order in which `main` reads them; the first that cannot be converted raises.
  unfoldable pub settings :
      (Text → Option Bool) → (Text → Option F) → F → Config → Option (Settings F)
  unfolding record_stdin record_command record_env record_idle_time_limit record_yes record_quiet
      play_idle_time_limit play_speed
  settings boolean to_float one c = do
    stdin ← record_stdin boolean c
    record_limit ← record_idle_time_limit F to_float c
    assume_yes ← record_yes boolean c
    quiet ← record_quiet boolean c
    play_limit ← play_idle_time_limit F to_float c
    speed ← play_speed F to_float one c
    some (record {
      stdin = stdin;
      command = record_command c;
      env = record_env c;
      record_limit = record_limit;
      yes = assume_yes;
      quiet = quiet;
      play_limit = play_limit;
      speed = speed;
    })
