-- ===== src/Recorder/RawAppended/Tests.antt =====
-- `--raw --append` on a raw recording.
use asciinema.Base.{
  ◌==◌, if◌then◌else◌, none, some, false, true, Option, List, [], ◌∷◌, pos, Text, ◌≡◌, refl, arith,
}
use asciinema.Asciicast.Json.{Json, null}
use asciinema.Asciicast.V2.Reader.{load_error}
use asciinema.Asciicast.V2.Writer.{decimal}
use asciinema.Asciicast.Raw.{resize_sequence}
use asciinema.Pty.Defs.{Size, Entry, stdout, Host}
use asciinema.Utf8.{encode, encode_char}
use asciinema.Recorder.Chunks.{run_chunks, chunks}
use asciinema.Recorder.Call.{Arguments, Machine, raises, record_raw}
use asciinema.Recorder.RawAppended.{universal, record_raw-load_error}

-- Whatever does not begin with an escape character is read.
abbrev loads : Text → Option Json
loads [] = none
loads (c ∷ cs) = if c == 0x1b then none else some null

abbrev screen : Size
screen = record { cols = 80; rows = 24 }

abbrev host : Host
host = record { now = λ n. pos n; tty_size = λ n. screen; tty_write = λ n. some 1 }

abbrev machine : Machine
machine = record {
  environ = [];
  now = 100;
  size = 11;
  tty_opens = true;
  null_opens = true;
  terminal_size = λ n. screen;
  disk = record { opens = true; fails = λ n. false; short = λ n. none };
  host = host;
  rounds = [];
  loads = loads;
  dumps = λ j. [];
}

abbrev arguments : Arguments
arguments = record {
  command = none;
  idle_time_limit = none;
  record_stdin = false;
  title = none;
  command_env = none;
  capture_env = none;
  key_bindings = none;
  cols_override = none;
  rows_override = none;
}

abbrev events : List Entry
events = stdout (pos 1000) (b'x' ∷ []) ∷ []

-- The file as a text is one line.
abbrev rest : Text
rest = b'[' ∷ b'8' ∷ b';' ∷ b'2' ∷ b'4' ∷ b';' ∷ b'8' ∷ b'0' ∷ b't' ∷ b'x' ∷ []

record_raw-load_error_example :
    record_raw machine arguments true ((0x1b ∷ rest) ∷ []) (run_chunks false screen events)
    ≡ raises load_error
unfolding encode encode_char universal resize_sequence chunks decimal
record_raw-load_error_example =
    record_raw-load_error machine arguments screen events 0x1b rest [] (λ t. refl) (omega arith)
      (0x1b ∷ rest, refl, refl)
