-- ===== src/Commands/Init.antt =====
-- asciinema/commands/record.py, `RecordCommand.__init__`, and the arguments of its call of
-- `recorder.record`. `boolean`, `upper` and `which` stand for `getboolean`, `str.upper` and
-- `shutil.which`.
use asciinema.Base.{
  ℕ, ◌||◌, Bool, true, false, String, Option, none, some, [], ◌∷◌, Bytes, Text, Dict, ℤ,
}
use asciinema.Config.{Config, Key, no_key, key, key_config_error, key_value_error}
use asciinema.Config.Settings.{
  notifications_enabled, notifications_command, record_prefix_key, record_pause_key,
  record_add_marker_key,
}
use asciinema.Notifier.{Notifier, get_notifier}
use asciinema.Pty.Defs.{Keys}
use asciinema.Recorder.Call.{Arguments}
use asciinema.Commands.Record.{Options}
use asciinema.Commands.Whitelist.{vars}

-- The namespace of the parsed arguments.
pub record Parsed : Type 0 where
  pub quiet : Bool
  pub filename : Text
  pub stdin : Bool
  pub command : Option Text
  pub env : String
  pub title : Option Text
  pub yes : Bool
  pub idle_time_limit : Option ℤ
  pub cols : Option ℕ
  pub rows : Option ℕ
  pub append : Bool
  pub overwrite : Bool
  pub raw : Bool

-- A result, or an exception of the configuration.
pub data Init (A : Type 0) : Type 0 where
  made : A → Init A
  config_error value_error : Init A

infixl 5 ◌>>=◌
abbrev ◌>>=◌ : {A B : Type 0} → Init A → (A → Init B) → Init B
made a >>= f = f a
config_error >>= f = config_error
value_error >>= f = value_error

pub record RecordCommand : Type 0 where
  pub options : Options
  pub notifier : Notifier
  pub key_bindings : Keys

abbrev is_truthy : Option Text → Bool
is_truthy none = false
is_truthy (some []) = false
is_truthy (some (c ∷ cs)) = true

unfoldable pub options_of : Parsed → Options
options_of args = record {
  filename = args.filename;
  raw = args.raw;
  append = args.append;
  overwrite = args.overwrite;
  assume_yes = args.yes || args.quiet;
  quiet = args.quiet;
  has_command = is_truthy args.command;
}

abbrev binding : Key → Init (Option Bytes)
binding no_key = made none
binding (key bytes) = made (some bytes)
binding key_config_error = config_error
binding key_value_error = value_error

abbrev or_value_error : {A : Type 0} → Option A → Init A
or_value_error none = value_error
or_value_error (some a) = made a

module _ (boolean : Text → Option Bool) (upper : Text → Text) (which : Text → Bool) where
  unfoldable pub bindings_of : Config → Init Keys
  unfolding record_prefix_key record_pause_key record_add_marker_key
  bindings_of config = do
    prefix ← binding (record_prefix_key upper config)
    pause ← binding (record_pause_key upper config)
    add_marker ← binding (record_add_marker_key upper config)
    made (record { prefix = prefix; pause = pause; add_marker = add_marker })

  -- `RecordCommand.__init__`
  unfoldable pub init : Parsed → Config → Init RecordCommand
  unfolding bindings_of options_of get_notifier notifications_enabled notifications_command
  init args config = do
    enabled ← or_value_error (notifications_enabled boolean config)
    keys ← bindings_of config
    made (record {
      options = options_of args;
      notifier = get_notifier which enabled (notifications_command config);
      key_bindings = keys;
    })

-- What `execute` gives to `recorder.record`, besides the file, the writer and `append`.
unfoldable pub arguments_of : Parsed → Dict Text → Keys → Arguments
unfolding vars
arguments_of args env keys = record {
  command = args.command;
  idle_time_limit = args.idle_time_limit;
  record_stdin = args.stdin;
  title = args.title;
  command_env = some env;
  capture_env = some (vars args.env);
  key_bindings = some keys;
  cols_override = args.cols;
  rows_override = args.rows;
}
