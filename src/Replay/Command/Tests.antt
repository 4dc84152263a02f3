-- ===== src/Replay/Command/Tests.antt =====
-- `rec` of a short session, then `cat` and `play`.
use asciinema.Base.{
  ◌==◌, ◌+ℤ◌, ◌-ℤ◌, true, false, none, some, List, [], ◌∷◌, pos, bytes_eq, is_key, ◌≡◌, refl, arith,
}
use asciinema.Pty.Copy.{record_session}
use asciinema.FileWriter.{Disk}
use asciinema.Asciicast.Json.{Json, null}
use asciinema.Utf8.{decode}
use asciinema.Recorder.Output.{output_bytes}
use asciinema.Recorder.Whole.{recorded_events}
use asciinema.Recorder.Call.{dev_tty, tty_fds, session_loop, loop_host, keys_of}
use asciinema.Commands.Record.{
  Options, Place, accepted, check, check_path, check_missing, uploaded, execute, is_interactive,
}
use asciinema.Commands.Kept.{Kept}
use asciinema.Commands.Recording.{call_recorder, execute-call_recorder-Kept}
use asciinema.Commands.Saved.{whole, IsSaved, execute-IsSaved}
use asciinema.Player.Defs as Player
use asciinema.Commands.Play as Play
use asciinema.Replay.Command.{session_output}
use asciinema.Replay.Command.Sample.{arguments, machine, machine_ends, machine_text}

abbrev options : Options
options = record {
  filename = b'f' ∷ [];
  raw = false;
  append = false;
  overwrite = false;
  assume_yes = false;
  quiet = true;
  has_command = false;
}

-- There is no such file yet.
abbrev missing : Place
missing = record {
  content = none;
  size = 0;
  writable = true;
  directory_exists = true;
  directory_writable = true;
}

named : is_interactive options ≡ false
unfolding bytes_eq
named = refl

missing_accepted : check options true missing missing ≡ accepted false none []
unfolding check check_path check_missing bytes_eq
missing_accepted = refl

execute-IsSaved_example :
    IsSaved machine.disk
      (whole machine arguments)
      (execute (call_recorder machine arguments) options true missing missing (uploaded none []) [])
unfolding tty_fds
execute-IsSaved_example =
    execute-IsSaved machine arguments options true missing missing (uploaded none []) [] none []
      dev_tty named refl machine_ends machine_text missing_accepted

abbrev default : Play.Options
default = record {
  idle_time_limit = none;
  speed = record { num = pos 2; den = 1 };
  loop = false;
  out_fmt = "raw";
  stream = none;
  pause_on_markers = false;
  bindings = record { pause = some (b' ' ∷ []); step = none; next_marker = none };
}

abbrev player : Player.Host
player = record { now = λ n. pos n; key = λ n. [] }

session_shown : session_output machine arguments ≡ b'$' ∷ b'o' ∷ b'k' ∷ []
unfolding loop_host keys_of recorded_events record_session is_key ◌-ℤ◌ ◌+ℤ◌ decode output_bytes
session_shown = refl

-- The file holds three values, and a write fails.
abbrev full : Disk
full = record { opens = true; fails = λ n. n == 1; short = λ n. none }

abbrev old : List Json
old = null ∷ null ∷ null ∷ []

abbrev existing : Place
existing = record missing { content = some old; size = 15 }

execute-call_recorder-Kept_example : Kept old (
    execute
      (call_recorder (record machine { disk = full; size = 15 }) arguments)
      (record options { append = true })
      true
      existing
      existing
      (uploaded none [])
      [])
unfolding bytes_eq session_loop is_key
execute-call_recorder-Kept_example =
    execute-call_recorder-Kept (record machine { disk = full; size = 15 }) arguments
      (record options { append = true }) true existing existing (uploaded none []) [] old tt named
      refl refl refl (omega arith)
