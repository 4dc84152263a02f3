-- ===== src/Recorder/Appended/Tests.antt =====
-- Two recordings in one file.
use asciinema.Base.{
  ℕ, zero, suc, ◌-◌, ◌+◌, ◌*◌, ◌+ℤ◌, ◌-ℤ◌, true, false, Option, none, some, List, [], ◌∷◌, pos,
  Text, bytes_eq, is_key, ◌≡◌, refl, arith,
}
use asciinema.Pty.Defs.{Keys, Entry, Host, stdout}
use asciinema.Pty.Copy.{Selected, ready, got, record_session}
use asciinema.Pty.Timing.{IsClock}
use asciinema.FileWriter.{Disk}
use asciinema.Asciicast.Json.{Json, float, Fields, field, end, int, obj, get_field}
use asciinema.Asciicast.V2.Writer.{round_time}
use asciinema.Asciicast.V2.Reader.{returned, has_version, is_number}
use asciinema.Utf8.{start}
use asciinema.Recorder.Worker.{enqueue_all}
use asciinema.Recorder.Lines.{lines}
use asciinema.Recorder.Metadata.{time_offset_of}
use asciinema.Recorder.Duration.{Holds, get_duration-held}
use asciinema.Recorder.Whole.{recorded_events, record_with}
use asciinema.Recorder.Appended.{IsOrdered, record_with_twice-IsOrdered}

abbrev terminal : Host
terminal = record {
  now = λ n. pos (n * 5000 + 5000);
  tty_size = λ n. record { cols = 80; rows = 24 };
  tty_write = λ n. some 1;
}

terminal-IsClock : IsClock terminal
terminal-IsClock = record { rises = λ n. omega arith; positive = λ n. omega arith }

abbrev no_keys : Keys
no_keys = record { prefix = none; pause = none; add_marker = none }

abbrev rounds : List Selected
rounds =
    ready (record {
      from_pty = some (got (b'$' ∷ []));
      from_stdin = none;
      from_signal = none;
      to_pty = none;
    })
    ∷ ready (record {
      from_pty = some (got (b'x' ∷ []));
      from_stdin = none;
      from_signal = none;
      to_pty = none;
    })
    ∷ []

abbrev sent : List Entry
sent = stdout (pos 5000) (b'$' ∷ []) ∷ stdout (pos 10000) (b'x' ∷ []) ∷ []

rounds_sent : enqueue_all false (recorded_events terminal no_keys rounds) ≡ sent
unfolding recorded_events record_session is_key ◌-ℤ◌ ◌+ℤ◌ enqueue_all
rounds_sent = refl

abbrev fields : Fields
fields = field "version" (int (pos 2)) end

abbrev works : Disk
works = record { opens = true; fails = λ n. false; short = λ n. none }

abbrev nth : ℕ → List Json → Option Json
nth n [] = none
nth zero (j ∷ js) = some j
nth (suc n) (j ∷ js) = nth n js

-- A file of three lines, named by their first letters, and a reader that knows them.
abbrev loads : Text → Option Json
loads (c ∷ []) = nth (c - b'a') (obj fields ∷ lines (pos 0) start start sent)
loads _ = none

abbrev file : List Text
file = (b'a' ∷ []) ∷ (b'b' ∷ []) ∷ (b'c' ∷ []) ∷ []

sent-Holds : Holds loads file (obj fields ∷ lines (pos 0) start start sent)
unfolding lines bytes_eq
sent-Holds = (refl, (refl, (refl, (refl, (refl, (refl, tt))))))

file-Holds : Holds loads file (
    obj fields
    ∷ lines (pos 0) start start (enqueue_all false (recorded_events terminal no_keys rounds)))
file-Holds = rw rounds_sent sent-Holds

fields-has_version : has_version 2 fields ≡ true
unfolding has_version is_number get_field
fields-has_version = refl

file_offset : time_offset_of loads true 100 file ≡ returned (float (pos 10000))
unfolding time_offset_of ◌+ℤ◌ round_time
file_offset = get_duration-held loads (pos 0) fields sent file fields-has_version sent-Holds

record_with_twice-IsOrdered_example : IsOrdered (
    record_with works none
      (obj fields
        ∷ lines (pos 0) start start (enqueue_all false (recorded_events terminal no_keys rounds)))
      (pos 10000)
      true
      terminal
      no_keys
      rounds)
record_with_twice-IsOrdered_example =
    record_with_twice-IsOrdered loads fields false true true terminal terminal no_keys no_keys
      rounds rounds file 100 (pos 10000) works terminal-IsClock terminal-IsClock fields-has_version
      file-Holds file_offset
