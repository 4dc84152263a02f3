-- ===== src/Commands/Recording.antt =====
-- asciinema/commands/record.py over asciinema/recorder.py: `rec` with the recorder that it calls.
use asciinema.Base.{
  ◌<◌, Bool, true, false, Option, none, some, List, [], ◌∷◌, append-nil, take, Text, Dict, map, pos,
  ◌≡◌, sym, ap, ◌∙◌, inl, inr, if_rule,
}
use asciinema.Pty.Defs.{Entry}
use asciinema.Asciicast.Json.{Json}
use asciinema.Asciicast.V2.Writer as V2
use asciinema.Asciicast.V2.Writer.{enter, fresh, with_file}
use asciinema.Asciicast.V2.Reader.{Raised, returned, raised}
use asciinema.FileWriter.{ok, open_file, unopened, try_open, close}
use asciinema.FileWriter as FileWriter
use asciinema.Utf8.{start}
use asciinema.Recorder.Worker.{
  Worker, done, failed, waiting, draining, crashed, drain, run, v2_writer,
}
use asciinema.Recorder.Lines.{
  lines, Written, Ended, Untouched-rule, drain-queue_of, run-Written, queue_of,
}
use asciinema.Recorder.Metadata.{time_offset_of, command_env_of}
use asciinema.Recorder.Call.{
  Device, tty_fds, Arguments, Machine, Called, raises, fails_io, fails_assertion, ran, init_header,
  offset_of, run_unfit, run_from, sent_events, record_call, argv, Loop, returns, raises_value_error,
  goes_on, pending, ended, session_loop,
}
use asciinema.Commands.Record.{
  Options, Place, Recorded, recorded, io_error, other_error, unfinished, Answer, Uploaded, execute,
  is_interactive, is_stdout,
}
use asciinema.Commands.Kept.{StartsWith, file_of, Kept, execute-Kept}

unfoldable pub content_of : Worker V2.Writer → List Json
content_of (done w queue) = w.file.content
content_of (failed w queue) = w.file.content
content_of (waiting w) = w.file.content
content_of (draining w) = w.file.content
content_of (crashed w) = w.file.content

-- `__exit__` of the worker: an unsuccessful one is a `RuntimeError`, and one that waits is not left.
unfoldable pub returned_by : Worker V2.Writer → Recorded
unfolding content_of
returned_by (done w queue) = recorded (some (content_of (done w queue)))
returned_by (failed w queue) = recorded (some (content_of (failed w queue)))
returned_by worker = other_error (some (content_of worker))

-- How a call of `recorder.record` looks to the command. A `ValueError` of the loop goes on when the
-- worker has ended.
unfoldable pub recorded_by : Option (List Json) → Called V2.Writer → Recorded
unfolding returned_by content_of
recorded_by left (raises Raised.load_error) = Recorded.load_error left
recorded_by left (raises _) = other_error left
recorded_by left fails_io = io_error left
recorded_by left fails_assertion = other_error left
recorded_by left pending = unfinished
recorded_by left (ran cmd env returns worker) = returned_by worker
recorded_by left (ran cmd env _ worker) = other_error (some (content_of worker))

abbrev pub lines_of : Option (List Json) → List Json
lines_of none = []
lines_of (some content) = content

-- The file that the checks have left goes to the recorder.
unfoldable pub call_recorder : Machine → Arguments → Bool → Option (List Json) → Recorded
unfolding recorded_by record_call
call_recorder m a append left = recorded_by left (record_call m a append (lines_of left))

-- The recording loop has ended.
abbrev pub Ends : Loop → Type 0
Ends goes_on = ⊥
Ends loop = Unit

module _ (m : Machine) (old : List Json) where
  abbrev Keeps : Called V2.Writer → Type 0
  Keeps c = StartsWith old (file_of (recorded_by (some old) c))

  same-StartsWith : StartsWith old (some old)
  same-StartsWith = ([], ap some (sym (append-nil old)))

  raises-Keeps : (e : Raised) → Keeps (raises e)
  unfolding recorded_by
  raises-Keeps Raised.load_error = same-StartsWith
  raises-Keeps _ = same-StartsWith

  -- What the worker leaves.
  abbrev Leaves : Worker V2.Writer → Type 0
  Leaves w = StartsWith old (some (content_of w))

  Written-Leaves : (new : List Json) (w : Worker V2.Writer) → Written old new w → Leaves w
  unfolding content_of
  Written-Leaves new (done w queue) h = (new, ap some h.0)
  Written-Leaves new (failed w queue) h = (take h.1.1.0 new, ap some h.1.1.1.1)
  Written-Leaves new (waiting w) h = elim h [ ]
  Written-Leaves new (draining w) h = elim h [ ]
  Written-Leaves new (crashed w) h = elim h [ ]

  Ended-Leaves : (new : List Json) (w : Worker V2.Writer) → Ended m.disk none old new w → Leaves w
  unfolding content_of
  Ended-Leaves new w (inl h) = Written-Leaves new w h
  Ended-Leaves new w (inr u) =
      Untouched-rule Leaves m.disk none old w
        (λ w queue c e. ([], ap some (c ∙ sym (append-nil old))))
        (λ w c e. ([], ap some (c ∙ sym (append-nil old)))) u

  unfit-Leaves : (es : List Entry) → Leaves (run_unfit (v2_writer m.disk none old) es)
  unfolding run_unfit enter try_open open_file unopened close content_of lines
  unfit-Leaves [] =
      Ended-Leaves [] (run (v2_writer m.disk none old) (pos 0) (queue_of []))
        (run-Written m.disk none old (pos 0) [])
  unfit-Leaves (e ∷ es) =
      let opened : V2.Writer = fresh m.disk (open_file true old) in
      if_rule
        (λ r. Leaves (elim (with_file opened r) [
          | ok w ↦ crashed (record w { file = close w.file })
          | FileWriter.io_error w ↦ drain (queue_of (e ∷ es)) w
          | FileWriter.other_error w ↦ crashed w
        ]))
        m.disk.opens (ok (open_file true old)) (FileWriter.io_error (unopened true old))
        (λ k. same-StartsWith) (λ k. rw (drain-queue_of (e ∷ es)) same-StartsWith)

  run_from-Leaves :
      (offset : Json) (es : List Entry) → Leaves (run_from (v2_writer m.disk none old) offset es)
  unfolding run_from
  run_from-Leaves offset es =
      elim (offset_of offset)
        as (λ o. Leaves (elim o [
          | some t ↦ run (v2_writer m.disk none old) t (queue_of es)
          | none ↦ run_unfit (v2_writer m.disk none old) es
        ])) [
          | some t ↦ Ended-Leaves (lines t start start es) _ (run-Written m.disk none old t es)
          | none ↦ unfit-Leaves es
        ]

  ended-Keeps :
      (cmd : List Text) (env : Dict Text) (loop : Loop) (w : Worker V2.Writer)
      → Ends loop
      → Leaves w
      → Keeps (ended cmd env loop w)
  unfolding recorded_by
  ended-Keeps cmd env returns (done w queue) h k = k
  ended-Keeps cmd env returns (failed w queue) h k = k
  ended-Keeps cmd env returns (waiting w) h k = k
  ended-Keeps cmd env returns (draining w) h k = k
  ended-Keeps cmd env returns (crashed w) h k = k
  ended-Keeps cmd env raises_value_error w h k = k
  ended-Keeps cmd env goes_on w h k = elim h [ ]

  opened-Keeps :
      (device : Option Device) (cmd : List Text) (env : Dict Text) (loop : Loop) (offset : Json)
      (es : List Entry)
      → Ends loop
      → Keeps (elim device [
        | none ↦ fails_io
        | some d ↦ ended cmd env loop (run_from (v2_writer m.disk none old) offset es)
      ])
  unfolding recorded_by
  opened-Keeps none cmd env loop offset es h = same-StartsWith
  opened-Keeps (some d) cmd env loop offset es h =
      ended-Keeps cmd env loop _ h (run_from-Leaves offset es)

  -- Appending keeps what the file held, whatever the recorder raises.
  record_call-Keeps : (a : Arguments) → Ends (session_loop m a) → Keeps (record_call m a true old)
  unfolding record_call init_header
  record_call-Keeps a h =
      let env = command_env_of a.command_env m.environ in
      elim (time_offset_of m.loads true m.size (map m.dumps old))
        as (λ r. Keeps (elim r [
          | raised e ↦ raises e
          | returned offset ↦ elim (tty_fds m.tty_opens m.null_opens) [
            | none ↦ fails_io
            | some d ↦
                ended (argv m a) env (session_loop m a)
                  (run_from (v2_writer m.disk none old) offset (sent_events m a))
          ]
        ])) [
          | raised e ↦ raises-Keeps e
          | returned offset ↦
              opened-Keeps (tty_fds m.tty_opens m.null_opens) (argv m a) env (session_loop m a)
                offset (sent_events m a) h
        ]

-- `rec --append` with the writer of version 2, for a recording in a file with a name that is not
-- empty, without `--overwrite`: whatever the arguments, the file and the machine are, whichever
-- check, call or write fails, once the recording loop has ended, by an exception or not, the command
-- ends, without a question or by an exception, and the file still starts with what it held.
pub execute-call_recorder-Kept :
    (m : Machine) (a : Arguments) (o : Options) (tty : Bool) (tmp place : Place) (up : Uploaded)
    (answers : List Answer) (old : List Json)
    → Ends (session_loop m a)
    → is_interactive o ≡ false
    → is_stdout o ≡ false
    → o.overwrite ≡ false
    → place.content ≡ some old
    → 0 < place.size
    → Kept old (execute (call_recorder m a) o tty tmp place up answers)
unfolding call_recorder
execute-call_recorder-Kept m a o tty tmp place up answers old ends =
    execute-Kept (call_recorder m a) o tty tmp place up answers old
      (λ content. record_call-Keeps m content a ends)
