-- ===== src/Commands/Saved.antt =====
-- asciinema/commands/record.py over asciinema/recorder.py: the file that `rec` makes.
use asciinema.Base.{
  Bool, true, false, Option, none, some, List, [], ◌∷◌, ◌++◌, append-nil, drop, take-append-drop,
  Text, Dict, pos, ◌≡◌, refl, ap, ◌∙◌, if_rule, inl, inr,
}
use asciinema.Asciicast.Json.{Json, Fields, obj, int, end, seconds}
use asciinema.Asciicast.V2.Writer as V2
use asciinema.Asciicast.V2.Writer.{can_encode, Header, header, assertion_error, build_header}
use asciinema.Asciicast.V2.Reader.{has_version}
use asciinema.FileWriter.{Disk, Works}
use asciinema.Utf8.{start}
use asciinema.Recorder.Worker.{Worker, done, failed, waiting, draining, crashed, run, v2_writer}
use asciinema.Recorder.Lines.{lines, Written, Ended, run-Written, queue_of}
use asciinema.Recorder.Works.{IsDone, run-IsDone}
use asciinema.Recorder.Metadata.{
  IsVersion2, build_header-IsVersion2, time_offset_of, command_env_of, capture_env_of,
}
use asciinema.Recorder.Call.{
  Arguments, Machine, Device, tty_fds, Called, fails_io, fails_assertion, ran, Loop, returns, ended,
  session_loop, init_header, offset_of, run_from, metadata_of, get_tty_size, sent_events,
  record_call, argv,
}
use asciinema.Commands.Record.{
  Message, info, recording_finished, saved, Options, Place, accepted, check, Answer, Uploaded,
  Outcome, exits, waiting, execute, go_on, after_record, finish, is_interactive, is_stdout,
}
use asciinema.Commands.Recording.{call_recorder, recorded_by, returned_by, content_of, lines_of}

unfoldable pub fields_of : Header → Fields
fields_of (header h) = h
fields_of assertion_error = end

module _ (m : Machine) (a : Arguments) where
  -- The header, and the whole file that should be made.
  abbrev pub header_of : Fields
  header_of = fields_of (build_header none none (metadata_of m a))

  abbrev pub whole : List Json
  whole = obj header_of ∷ lines (pos 0) start start (sent_events m a)

  made-IsVersion2 :
      (h : Header)
      → IsVersion2 h
      → (has_version 2 (fields_of h) ≡ true) × (h ≡ header (fields_of h))
  unfolding fields_of
  made-IsVersion2 (header h) v = (v, refl)
  made-IsVersion2 assertion_error v = elim v [ ]

  header-IsMade :
      (has_version 2 header_of ≡ true)
      × (build_header none none (metadata_of m a) ≡ header header_of)
  unfolding metadata_of
  header-IsMade = made-IsVersion2 (build_header none none (metadata_of m a)) (
      build_header-IsVersion2 m.now (get_tty_size m a 0).cols (get_tty_size m a 0).rows
        a.idle_time_limit (capture_env_of a.capture_env) (command_env_of a.command_env m.environ)
        a.title)

  pub header_of-has_version : has_version 2 header_of ≡ true
  header_of-has_version = header-IsMade.0

  -- A recording that does not append.
  abbrev worker : List Json → Worker V2.Writer
  worker old = run (v2_writer m.disk (some header_of) old) (pos 0) (queue_of (sent_events m a))

  -- What `record` does with the header.
  abbrev headed : Loop → List Json → Option (Option Fields) → Called V2.Writer
  headed loop old made = elim made [
    | none ↦ fails_assertion
    | some fields ↦
        ended (argv m a) (command_env_of a.command_env m.environ) loop
          (run_from (v2_writer m.disk fields old) (int (pos 0)) (sent_events m a))
  ]

  headed-new :
      (old : List Json)
      → headed returns old (init_header false (metadata_of m a))
        ≡ ran (argv m a) (command_env_of a.command_env m.environ) returns (worker old)
  unfolding init_header run_from offset_of seconds fields_of
  headed-new old = rw (init_header, header-IsMade.1) refl

  record_call-new :
      (old : List Json) (device : Device)
      → tty_fds m.tty_opens m.null_opens ≡ some device
      → session_loop m a ≡ returns
      → record_call m a false old
        ≡ ran (argv m a) (command_env_of a.command_env m.environ) returns (worker old)
  unfolding record_call time_offset_of
  record_call-new old device e l =
      ap
        (λ d. elim d [
          | none ↦ fails_io
          | some d' ↦ headed (session_loop m a) old (init_header false (metadata_of m a))
        ])
        e
      ∙ ap (λ loop. headed loop old (init_header false (metadata_of m a))) l
      ∙ headed-new old

-- The command ends with the status 0 and a file that holds the beginning of these values, and all
-- of them where the file can be opened and no write fails.
abbrev pub IsSaved : Disk → List Json → Outcome → Type 0
IsSaved disk values (exits status (some file) ms) =
    (status ≡ 0) × ((rest : List Json) × (file ++ rest ≡ values)) × (Works disk → file ≡ values)
IsSaved disk values _ = ⊥

-- The same of a worker.
abbrev IsWritten : Disk → List Json → Worker V2.Writer → Type 0
IsWritten disk values (done w queue) = w.file.content ≡ values
IsWritten disk values (failed w queue) =
    ((rest : List Json) × (w.file.content ++ rest ≡ values))
    × (Works disk → w.file.content ≡ values)
IsWritten disk values _ = ⊥

Written-IsWritten :
    (disk : Disk) (values : List Json) (r : Worker V2.Writer)
    → Written [] values r
    → (Works disk → IsDone r)
    → IsWritten disk values r
Written-IsWritten disk values (done w queue) h k = h.0
Written-IsWritten disk values (failed w queue) h k = (
  (drop h.1.1.0 values, rw h.1.1.1.1 (take-append-drop h.1.1.0 values)),
  λ works. elim (k works) [ ],
)
Written-IsWritten disk values (waiting w) h k = elim h [ ]
Written-IsWritten disk values (draining w) h k = elim h [ ]
Written-IsWritten disk values (crashed w) h k = elim h [ ]

Ended-IsWritten :
    (disk : Disk) (h : Fields) (values : List Json) (r : Worker V2.Writer)
    → can_encode (obj h) ≡ true
    → Ended disk (some h) [] values r
    → (Works disk → IsDone r)
    → IsWritten disk values r
Ended-IsWritten disk h values r t (inl k) d = Written-IsWritten disk values r k d
Ended-IsWritten disk h values (failed w queue) t (inr u) d =
    ((values, ap (λ (ls : List Json). ls ++ values) u.1.1.1), λ works. elim (d works) [ ])
Ended-IsWritten disk h values (crashed w) t (inr u) d = absurd (cc (t, u.0))
Ended-IsWritten disk h values (done w queue) t (inr u) d = elim u [ ]
Ended-IsWritten disk h values (waiting w) t (inr u) d = elim u [ ]
Ended-IsWritten disk h values (draining w) t (inr u) d = elim u [ ]

finish-IsSaved :
    (o : Options) (up : Uploaded) (answers : List Answer) (disk : Disk) (values file : List Json)
    (ms : List Message)
    → is_interactive o ≡ false
    → ((rest : List Json) × (file ++ rest ≡ values)) × (Works disk → file ≡ values)
    → IsSaved disk values (finish o up answers (some file) ms)
unfolding finish
finish-IsSaved o up answers disk values file ms h k = rw h (
    if_rule (IsSaved disk values) (is_stdout o) (exits 0 (some file) ms)
      (exits 0 (some file) (ms ++ info o saved)) (λ e. (refl, k.0, k.1)) (λ e. (refl, k.0, k.1)))

after_record-IsSaved :
    (o : Options) (up : Uploaded) (answers : List Answer) (disk : Disk) (values : List Json)
    (left : Option (List Json)) (cmd : List Text) (env : Dict Text) (r : Worker V2.Writer)
    (ms : List Message)
    → is_interactive o ≡ false
    → IsWritten disk values r
    → IsSaved disk values (after_record o up answers (recorded_by left (ran cmd env returns r)) ms)
unfolding after_record recorded_by returned_by content_of
after_record-IsSaved o up answers disk values left cmd env (done w queue) ms h k =
    finish-IsSaved o up answers disk values w.file.content (ms ++ info o recording_finished) h
      (([], append-nil w.file.content ∙ k), λ _. k)
after_record-IsSaved o up answers disk values left cmd env (failed w queue) ms h k =
    finish-IsSaved o up answers disk values w.file.content (ms ++ info o recording_finished) h k
after_record-IsSaved o up answers disk values left cmd env (waiting w) ms h k = elim k [ ]
after_record-IsSaved o up answers disk values left cmd env (draining w) ms h k = elim k [ ]
after_record-IsSaved o up answers disk values left cmd env (crashed w) ms h k = elim k [ ]

-- `rec` in a file with a name, or on stdout, when the checks let it record and not append, the
-- terminal or else /dev/null can be opened, the recording loop ends without a `ValueError`, and the
-- header has no surrogate in it: the recorder raises nothing, and the command ends with the status 0,
-- without a question. The file holds the header and then a line for each event of the recording loop,
-- input only where it is to be recorded; or a beginning of these where the opening or a write fails.
pub execute-IsSaved :
    (m : Machine) (a : Arguments) (o : Options) (tty : Bool) (tmp place : Place) (up : Uploaded)
    (answers : List Answer) (left : Option (List Json)) (printed : List Message) (device : Device)
    → is_interactive o ≡ false
    → tty_fds m.tty_opens m.null_opens ≡ some device
    → session_loop m a ≡ returns
    → can_encode (obj (header_of m a)) ≡ true
    → check o tty tmp place ≡ accepted false left printed
    → IsSaved m.disk (whole m a) (execute (call_recorder m a) o tty tmp place up answers)
unfolding execute go_on call_recorder
execute-IsSaved m a o tty tmp place up answers left printed device i t l text c =
    rw (execute, c, go_on, call_recorder, record_call-new m a (lines_of left) device t l)
      (after_record-IsSaved o up answers m.disk (whole m a) left (argv m a)
        (command_env_of a.command_env m.environ) (worker m a (lines_of left)) _ i
        (Ended-IsWritten m.disk (header_of m a) (whole m a) (worker m a (lines_of left)) text
          (run-Written m.disk (some (header_of m a)) (lines_of left) (pos 0) (sent_events m a))
          (λ works.
            run-IsDone m.disk (some (header_of m a)) (lines_of left) (pos 0) (sent_events m a) works
              text)))
