-- ===== src/Replay/Command/Sample.antt =====
-- A short session, and a machine that records it.
use asciinema.Base.{
  Bool, true, ℕ, zero, suc, ◌-◌, ◌+◌, ◌*◌, ◌/◌, ◌+ℤ◌, ◌-ℤ◌, true, false, Option, none, some, List,
  [], ◌∷◌, map, pos, Text, bytes_eq, is_key, ◌≡◌, refl,
}
use asciinema.Pty.Defs.{Entry, stdout, Host}
use asciinema.Pty.Copy.{Selected, ready, got, wrote, record_session}
use asciinema.Asciicast.Json.{get_field, set_field, Json, null, arr, obj, float, cons}
use asciinema.Asciicast.V2.Writer.{event_json, can_encode, build_header}
use asciinema.Utf8.{start, encode, encode_char}
use asciinema.Recorder.Worker.{enqueue_all}
use asciinema.Recorder.Lines.{lines}
use asciinema.Recorder.Duration.{Holds}
use asciinema.Recorder.Whole.{recorded_events}
use asciinema.Recorder.Call.{
  Arguments, Machine, session_loop, returns, get_tty_size, loop_host, keys_of, metadata_of,
  sent_events,
}
use asciinema.Commands.Saved.{fields_of, header_of, whole}

-- The clock goes in microseconds.
abbrev pub terminal : Host
terminal = record {
  now = λ n. pos (n * 1000 + 1000);
  tty_size = λ n. record { cols = 80; rows = 24 };
  tty_write = λ n. some 1;
}

-- A key is typed, and the child writes twice and ends.
abbrev pub rounds : List Selected
rounds =
    ready (record {
      from_pty = some (got (b'$' ∷ []));
      from_stdin = some (got (b'l' ∷ []));
      from_signal = none;
      to_pty = some (wrote 1);
    })
    ∷ ready (record {
      from_pty = some (got (b'o' ∷ b'k' ∷ []));
      from_stdin = none;
      from_signal = none;
      to_pty = none;
    })
    ∷ ready
        (record { from_pty = some (got []); from_stdin = none; from_signal = none; to_pty = none })
    ∷ []

abbrev pub arguments : Arguments
arguments = record {
  command = none;
  idle_time_limit = none;
  record_stdin = false;
  title = some (b't' ∷ []);
  command_env = none;
  capture_env = none;
  key_bindings = none;
  cols_override = some 100;
  rows_override = none;
}

abbrev pub works : ℕ → Bool
works n = false

abbrev pub unread : Machine
unread = record {
  environ = ("SHELL", b'z' ∷ []) ∷ [];
  now = 100;
  size = 0;
  tty_opens = true;
  null_opens = true;
  terminal_size = λ n. record { cols = 80; rows = 24 };
  disk = record { opens = true; fails = works; short = λ n. none };
  host = terminal;
  rounds = rounds;
  loads = λ t. none;
  dumps = λ j. [];
}

abbrev pub sent : List Entry
sent = stdout (pos 1000) (b'$' ∷ []) ∷ stdout (pos 3000) (b'o' ∷ b'k' ∷ []) ∷ []

abbrev pub nth : ℕ → List Json → Option Json
nth n [] = none
nth zero (j ∷ js) = some j
nth (suc n) (j ∷ js) = nth n js

-- A line is the letter of its time, and the header the letter of zero.
abbrev pub dumps : Json → Text
dumps (arr (cons (float (pos t)) items)) = (t / 1000 + b'a') ∷ []
dumps _ = b'a' ∷ []

abbrev pub spaced : List Json → List Json
spaced (h ∷ l ∷ ls) = h ∷ l ∷ null ∷ ls
spaced ls = ls

abbrev pub loads : Text → Option Json
loads (c ∷ []) =
    nth (c - b'a') (spaced (obj (header_of unread arguments) ∷ lines (pos 0) start start sent))
loads _ = none

abbrev pub machine : Machine
machine = record unread { loads = loads; dumps = dumps }

pub machine_sent : sent_events machine arguments ≡ sent
unfolding sent_events loop_host keys_of recorded_events record_session is_key ◌-ℤ◌ ◌+ℤ◌ enqueue_all
machine_sent = refl

pub machine_ends : session_loop machine arguments ≡ returns
unfolding session_loop loop_host keys_of record_session is_key ◌-ℤ◌ ◌+ℤ◌
machine_ends = refl

-- Nothing in the header is a surrogate.
pub machine_text : can_encode (obj (header_of machine arguments)) ≡ true
unfolding can_encode encode encode_char metadata_of get_tty_size build_header fields_of set_field
    get_field
machine_text = refl

abbrev pub sent_whole : List Json
sent_whole = obj (header_of unread arguments) ∷ lines (pos 0) start start sent

sent-Holds : Holds loads (map dumps sent_whole) sent_whole
unfolding lines bytes_eq event_json ◌+ℤ◌
sent-Holds = (refl, (refl, (refl, (refl, (refl, (refl, tt))))))

pub machine-Holds :
    Holds machine.loads (map machine.dumps (whole machine arguments)) (whole machine arguments)
unfolding metadata_of get_tty_size
machine-Holds = rw machine_sent sent-Holds
