-- ===== src/Recorder/Tests.antt =====
-- Runs of the recorder's worker.
use asciinema.Base.{
  ◌==◌, some, none, true, [], ◌∷◌, ◌++◌, ◌+ℤ◌, List, Option, pos, Text, bytes_eq, if◌then◌else◌,
  refl, ◌≡◌,
}
use asciinema.Base.{drop}
use asciinema.Base.{false}
use asciinema.FileWriter.{Disk}
use asciinema.Base.{◌+◌}
use asciinema.Pty.Defs.{Host, Keys}
use asciinema.Pty.Copy.{Selected, ready, got, wrote}
use asciinema.Recorder.Whole.{
  recorded_events, record_with, IsPrivate, record_with-HasOutput, record_with-IsPrivate,
}
use asciinema.Asciicast.Raw.{appends}
use asciinema.Recorder.Worker.{raw_writer}
use asciinema.Recorder.Chunks.{WrittenRaw, kept_raw, run_chunks, run-WrittenRaw}
use asciinema.Asciicast.V2.Reader.{raised, attribute_error}
use asciinema.Recorder.Headless.{append_to_empty}
use asciinema.Pty.Defs.{Entry, stdout, marker}
use asciinema.Asciicast.Json.{Json, Fields, field, end, int, obj, get_field}
use asciinema.Recorder.Worker.{run, v2_writer}
use asciinema.Recorder.Lines.{Ended, kept, run_lines, run-Written, queue_of}
use asciinema.Recorder.Lines.{line, lines, next_in, next_out}
use asciinema.Asciicast.V2.Writer.{event_json, build_header}
use asciinema.Asciicast.V2.Reader.{has_version, is_number}
use asciinema.Recorder.Duration.{HasDuration, Holds, duration, last_output, run-HasDuration}
use asciinema.Recorder.Metadata.{IsRead, build_metadata, build_header-build_metadata}
use asciinema.Recorder.Output.{HasOutput, output_bytes, output_text}
use asciinema.Utf8.{decode, start}
use asciinema.Base.{ℕ, String, ◌-ℤ◌, is_key}
use asciinema.Pty.Defs.{session_of}
use asciinema.Pty.Copy.{record_session}
use asciinema.Recorder.Worker.{enqueue_all}
use asciinema.Asciicast.V2.Writer.{enter, write_stdout}
use asciinema.FileWriter.{write, close}
use asciinema.Recorder.Notifier as Notifier
use asciinema.Recorder.Notifier.{exception, joined, told_of, run_notifier}
use asciinema.Recorder.Notices.{
  Shuffle, empty, first, second, turns_of, reported, IsTold, run_notifier-IsTold,
}

abbrev third_fails : Disk
third_fails = record { opens = true; fails = λ n. n == 2; short = λ n. none }

abbrev header : Option Fields
header = some (field "version" (int (pos 2)) end)

-- U+00E9 in two pieces.
abbrev events : List Entry
events =
    stdout (pos 1000) (0xc3 ∷ []) ∷ marker (pos 2000) ∷ stdout (pos 3000) (0xa9 ∷ b'x' ∷ []) ∷ []

run-Written_example :
    Ended third_fails header
      (kept header [])
      (run_lines header (pos 0) events)
      (run (v2_writer third_fails header []) (pos 0) (queue_of events))
run-Written_example = run-Written third_fails header [] (pos 0) events

abbrev fields : Fields
fields = field "version" (int (pos 2)) end

abbrev two_events : List Entry
two_events = stdout (pos 1000) (b'x' ∷ []) ∷ marker (pos 2000) ∷ []

-- A file of three lines, and a reader that knows them.
abbrev shown : List Text
shown = (b'h' ∷ []) ∷ (b'o' ∷ []) ∷ (b'm' ∷ []) ∷ []

abbrev loads : Text → Option Json
loads t =
    if bytes_eq t (b'h' ∷ [])
    then some (obj fields)
    else if bytes_eq t (b'o' ∷ [])
    then some (event_json (pos 1000) (b'o' ∷ []) (b'x' ∷ []))
    else if bytes_eq t (b'm' ∷ [])
    then some (event_json (pos 2000) (b'm' ∷ []) [])
    else none

shown-Holds : Holds loads shown (obj fields ∷ lines (pos 0) start start two_events)
unfolding lines line next_in next_out decode bytes_eq ◌+ℤ◌
shown-Holds = (refl, (refl, (refl, (refl, (refl, (refl, tt))))))

fields-has_version : has_version 2 fields ≡ true
unfolding has_version is_number get_field
fields-has_version = refl

run-HasDuration_example :
    HasDuration loads shown
      (duration (pos 0) (last_output none two_events))
      (run (v2_writer third_fails (some fields) []) (pos 0) (queue_of two_events))
run-HasDuration_example =
    run-HasDuration loads third_fails fields (pos 0) two_events shown fields-has_version shown-Holds

build_header-build_metadata_example :
    IsRead 80 24 (some (pos 2000)) ("SHELL" ∷ []) (("SHELL", b'z' ∷ []) ∷ []) none shown (
      build_header none none (
        build_metadata 100 80 24 (some (pos 2000)) ("SHELL" ∷ []) (("SHELL", b'z' ∷ []) ∷ []) none))
build_header-build_metadata_example =
    build_header-build_metadata 100 80 24 (some (pos 2000)) ("SHELL" ∷ [])
      (("SHELL", b'z' ∷ []) ∷ []) none shown

shown-headless : Holds loads (drop 1 shown) (lines (pos 0) start start two_events)
shown-headless = shown-Holds.1.1

append_to_empty_example :
    HasDuration loads
      (drop 1 shown)
      (raised attribute_error)
      (run (v2_writer third_fails none []) (pos 0) (queue_of two_events))
append_to_empty_example =
    append_to_empty loads third_fails (pos 0) (stdout (pos 1000) (b'x' ∷ []))
      (marker (pos 2000) ∷ []) (drop 1 shown) shown-headless

run-WrittenRaw_example :
    WrittenRaw
      (kept_raw (appends true (some 0)) [])
      (run_chunks (appends true (some 0)) (record { cols = 80; rows = 24 }) events)
      (run
        (raw_writer third_fails true (some 0) (record { cols = 80; rows = 24 }) [])
        (pos 0)
        (queue_of events))
run-WrittenRaw_example =
    run-WrittenRaw third_fails true (some 0) (record { cols = 80; rows = 24 }) [] (pos 0) events
      refl (λ n. refl)

-- A terminal where a key is typed and a byte is shown.
abbrev host : Host
host = record {
  now = λ n. pos (n + 1);
  tty_size = λ n. record { cols = 80; rows = 24 };
  tty_write = λ n. some 1;
}

abbrev no_keys : Keys
no_keys = record { prefix = none; pause = none; add_marker = none }

abbrev rounds : List Selected
rounds =
    ready (record {
      from_pty = some (got (b'$' ∷ []));
      from_stdin = some (got (b'l' ∷ []));
      from_signal = none;
      to_pty = some (wrote 1);
    })
    ∷ []

record_with-HasOutput_example :
    HasOutput
      (output_text (kept header [])
        ++ (decode start (output_bytes (recorded_events host no_keys rounds))).text)
      (record_with third_fails header [] (pos 0) true host no_keys rounds)
record_with-HasOutput_example =
    record_with-HasOutput third_fails header [] (pos 0) true host no_keys rounds

record_with-IsPrivate_example :
    IsPrivate (record_with third_fails (some fields) [] (pos 0) false host no_keys rounds)
record_with-IsPrivate_example =
    record_with-IsPrivate third_fails fields [] (pos 0) host no_keys rounds

-- The loop pauses, and the worker's second write fails.
abbrev pausing : Keys
pausing = record no_keys { pause = some (b'l' ∷ []) }

abbrev second_fails : Disk
second_fails = record { opens = true; fails = λ n. n == 1; short = λ n. none }

-- Every call of `notify` raises.
abbrev no_tool : ℕ → Option Notifier.Raised
no_tool n = some exception

abbrev notices : List String
notices = (session_of (record_session host pausing rounds)).notices

pausing_notices : notices ≡ "Paused recording" ∷ []
unfolding record_session is_key ◌-ℤ◌ ◌+ℤ◌
pausing_notices = refl

abbrev suspended : String
suspended = "Write error, recording suspended"

-- The writer's error comes first.
texts-Shuffle :
    Shuffle notices
      (reported (record_with second_fails header [] (pos 0) false host pausing rounds))
      (suspended ∷ "Paused recording" ∷ [])
unfolding record_with recorded_events record_session is_key ◌-ℤ◌ ◌+ℤ◌ reported run decode
    enqueue_all enter write write_stdout close
texts-Shuffle = second (first empty)

run_notifier-IsTold_example :
    (joined (run_notifier no_tool (turns_of (suspended ∷ "Paused recording" ∷ []))) ≡ some true)
    × (told_of (run_notifier no_tool (turns_of (suspended ∷ "Paused recording" ∷ [])))
        ≡ suspended ∷ "Paused recording" ∷ [])
    × IsTold notices
        (record_with second_fails header [] (pos 0) false host pausing rounds)
        (suspended ∷ "Paused recording" ∷ [])
run_notifier-IsTold_example =
    run_notifier-IsTold no_tool second_fails header [] (pos 0) false host pausing rounds
      (suspended ∷ "Paused recording" ∷ []) texts-Shuffle
