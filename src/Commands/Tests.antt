-- ===== src/Commands/Tests.antt =====
-- The question and the whitelist of asciinema/commands/record.py.
use asciinema.Base.{
  true, false, none, some, [], ◌∷◌, ◌++◌, bytes_eq, ◌≡◌, refl, pos, Dict, Text, insert,
}
use asciinema.Pty.Defs.{Keys, Host}
use asciinema.Recorder.Call.{Machine}
use asciinema.Commands.Record.{Options, uploaded, finish, is_interactive}
use asciinema.Commands.Record as Record
use asciinema.Commands.Saved.{header_of}
use asciinema.Commands.Whitelist.{is_space, Padded, IsPadded}
use asciinema.Commands.Init.{Parsed, arguments_of}
use asciinema.Commands.Env.{IsWhitelisted, header_of-IsWhitelisted}
use asciinema.Commands.Questions.{ends_of_input, questions, finish-ends_of_input}

abbrev options : Options
options = record {
  filename = b'a' ∷ [];
  raw = false;
  append = true;
  overwrite = false;
  assume_yes = false;
  quiet = false;
  has_command = false;
}

abbrev no_name : Options
no_name = record options { filename = [] }

no_name-interactive : is_interactive no_name ≡ true
unfolding bytes_eq
no_name-interactive = refl

finish-ends_of_input_example :
    finish no_name (uploaded none []) (ends_of_input 3) (some []) []
    ≡ Record.waiting (some []) ([] ++ questions 3)
finish-ends_of_input_example =
    finish-ends_of_input no_name (uploaded none []) 3 (some []) [] no_name-interactive refl

abbrev host : Host
host = record {
  now = λ n. pos n;
  tty_size = λ n. record { cols = 80; rows = 24 };
  tty_write = λ n. some 1;
}

abbrev machine : Machine
machine = record {
  environ = [];
  now = 100;
  size = 0;
  tty_opens = false;
  null_opens = true;
  terminal_size = λ n. record { cols = 80; rows = 24 };
  disk = record { opens = true; fails = λ n. false; short = λ n. none };
  host = host;
  rounds = [];
  loads = λ t. none;
  dumps = λ j. [];
}

abbrev shell : Padded
shell = record { left = ""; name = "SHELL"; right = "" }

abbrev term : Padded
term = record { left = " "; name = "TERM"; right = "" }

abbrev parsed : Parsed
parsed = record {
  quiet = false;
  filename = [];
  stdin = false;
  command = none;
  env = "SHELL, TERM";
  title = none;
  yes = false;
  idle_time_limit = none;
  cols = none;
  rows = none;
  append = false;
  overwrite = false;
  raw = false;
}

abbrev no_keys : Keys
no_keys = record { prefix = none; pause = none; add_marker = none }

abbrev environ : Dict Text
environ = ("SHELL", b'z' ∷ []) ∷ ("HOME", b'h' ∷ []) ∷ []

shell-IsPadded : IsPadded shell
unfolding is_space
shell-IsPadded = (tt, (refl, refl, (refl, (refl, (refl, (refl, (refl, tt)))))), tt)

term-IsPadded : IsPadded term
unfolding is_space
term-IsPadded = ((refl, tt), (refl, refl, (refl, (refl, (refl, (refl, tt))))), tt)

header_of-IsWhitelisted_example :
    IsWhitelisted
      ("SHELL" ∷ "TERM" ∷ [])
      (insert "ASCIINEMA_REC" (b'1' ∷ []) environ)
      (header_of machine (arguments_of parsed environ no_keys))
header_of-IsWhitelisted_example =
    header_of-IsWhitelisted machine parsed environ no_keys shell (term ∷ []) shell-IsPadded
      (term-IsPadded, tt) refl
