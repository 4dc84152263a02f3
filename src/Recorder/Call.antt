-- ===== src/Recorder/Call.antt =====
-- asciinema/recorder.py, the whole of `record` with either writer. A file of version 2 is
-- a list of JSON values; `dumps` gives the line of one, as `json.dumps` does, and `loads` reads a line.
use asciinema.Base.{
  ℕ, ◌+◌, if◌then◌else◌, Bool, true, false, Option, none, some, List, [], ◌∷◌, map, String, Text,
  Bytes, ℤ, pos, Dict,
}
use asciinema.Asciicast.Json.{Json, Fields, time_of}
use asciinema.Asciicast.V2.Writer as V2
use asciinema.Asciicast.V2.Writer.{build_header, header, assertion_error}
use asciinema.Asciicast.V2.Reader.{Raised, returned, raised}
use asciinema.FileWriter.{File, Disk, ok, io_error, other_error}
use asciinema.Pty.Defs.{Entry, Size, Keys, Host, Step, go, halt, spinning, value_error}
use asciinema.Pty.Copy.{Selected, record_session}
use asciinema.Recorder.Worker.{
  Writer, Worker, crashed, drain, run, v2_writer, raw_writer, enqueue_all,
}
use asciinema.Recorder.Lines.{queue_of}
use asciinema.Recorder.Whole.{recorded_events}
use asciinema.Recorder.Metadata.{
  command_of, command_env_of, capture_env_of, time_offset_of, build_metadata, tty_size,
}

pub record Arguments : Type 0 where
  pub command : Option Text
  pub idle_time_limit : Option ℤ
  pub record_stdin : Bool
  pub title : Option Text
  pub command_env : Option (Dict Text)
  pub capture_env : Option (List String)
  pub key_bindings : Option Keys
  pub cols_override : Option ℕ
  pub rows_override : Option ℕ

-- What the calls into the system give: `size` is that of the file, `terminal_size n` what the n-th
-- `os.get_terminal_size` gives, and `rounds` are the rounds of `select`.
pub record Machine : Type 0 where
  pub environ : Dict Text
  pub now : ℕ
  pub size : ℕ
  pub tty_opens : Bool
  pub null_opens : Bool
  pub terminal_size : ℕ → Size
  pub disk : Disk
  pub host : Host
  pub rounds : List Selected
  pub loads : Text → Option Json
  pub dumps : Json → Text

-- How the recording loop ends, if it does.
pub data Loop : Type 0 where
  returns raises_value_error goes_on : Loop

unfoldable pub loop_of : Step → Loop
loop_of (go s) = goes_on
loop_of (halt spinning s) = goes_on
loop_of (halt value_error s) = raises_value_error
loop_of (halt _ s) = returns

-- How the call goes: an exception before anything is started, or the arguments and the environment
-- of the process that is recorded, with the end of the loop and of the worker; or the loop goes on.
pub data Called (S : Type 0) : Type 0 where
  raises : Raised → Called S
  fails_io : Called S
  fails_assertion : Called S
  ran : List Text → Dict Text → Loop → Worker S → Called S
  pending : Called S

-- What stands for the terminal's output.
pub data Device : Type 0 where
  dev_tty dev_null : Device

-- `tty_fds.__enter__`, by whether either file can be opened; `none` for an `OSError`.
unfoldable pub tty_fds : Bool → Bool → Option Device
tty_fds true null_opens = some dev_tty
tty_fds false true = some dev_null
tty_fds false false = none

-- `os.isatty(fd)`
abbrev is_tty : Option Device → Bool
is_tty (some dev_tty) = true
is_tty _ = false

-- `writer.__init__`: the header, if there is to be one; or `none` for a failed assertion.
unfoldable pub init_header : Bool → Fields → Option (Option Fields)
unfolding build_header
init_header true metadata = some none
init_header false metadata = elim (build_header none none metadata) [
  | header h ↦ some (some h)
  | assertion_error ↦ none
]

-- The time that is added, if `self.time_offset + ts` is a number.
unfoldable pub offset_of : Json → Option ℤ
unfolding time_of
offset_of (Json.bool true) = some (pos 1_000_000_000)
offset_of (Json.bool false) = some (pos 0)
offset_of offset = time_of offset

-- The worker, where the sum raises a `TypeError`, so that the first event ends it.
unfoldable pub run_unfit : (w : Writer) → List Entry → Worker w.State
unfolding run drain
run_unfit w [] = run w (pos 0) (queue_of [])
run_unfit w (event ∷ events) = elim w.enter [
  | ok s ↦ crashed (w.exit s)
  | io_error s ↦ drain (queue_of (event ∷ events)) s
  | other_error s ↦ crashed s
]

unfoldable pub run_from : (w : Writer) → Json → List Entry → Worker w.State
unfolding offset_of run_unfit run
run_from w offset events = elim (offset_of offset) [
  | some t ↦ run w t (queue_of events)
  | none ↦ run_unfit w events
]

-- The end of the loop, and then of the worker.
abbrev pub ended : {S : Type 0} → List Text → Dict Text → Loop → Worker S → Called S
ended cmd env goes_on worker = pending
ended cmd env loop worker = ran cmd env loop worker

-- `key_bindings`, which defaults to none.
unfoldable pub keys_of : Option Keys → Keys
keys_of (some keys) = keys
keys_of none = record { prefix = none; pause = none; add_marker = none }

module _ (m : Machine) (a : Arguments) where
  -- The n-th call of `get_tty_size`.
  unfoldable pub get_tty_size : ℕ → Size
  unfolding tty_size tty_fds
  get_tty_size n =
      tty_size
        (if is_tty (tty_fds m.tty_opens m.null_opens) then some (m.terminal_size n) else none)
        a.cols_override a.rows_override

  unfoldable pub metadata_of : Fields
  unfolding get_tty_size build_metadata capture_env_of command_env_of
  metadata_of =
      build_metadata m.now (get_tty_size 0).cols (get_tty_size 0).rows a.idle_time_limit
        (capture_env_of a.capture_env) (command_env_of a.command_env m.environ) a.title

  -- What the recording loop is given: the first size has gone into the metadata.
  unfoldable pub loop_host : Host
  unfolding get_tty_size
  loop_host = record m.host { tty_size = λ n. get_tty_size (n + 1) }

  -- The events that are put into the queue.
  unfoldable pub sent_events : List Entry
  unfolding loop_host keys_of enqueue_all recorded_events
  sent_events =
      enqueue_all a.record_stdin (recorded_events loop_host (keys_of a.key_bindings) m.rounds)

  unfoldable pub session_loop : Loop
  unfolding loop_of loop_host keys_of record_session
  session_loop = loop_of (record_session loop_host (keys_of a.key_bindings) m.rounds)

  abbrev pub argv : List Text
  argv = (b's' ∷ b'h' ∷ []) ∷ (b'-' ∷ b'c' ∷ []) ∷ command_of a.command m.environ ∷ []

  -- `record`, for a file that holds `old`.
  unfoldable pub record_call : Bool → List Json → Called V2.Writer
  unfolding time_offset_of tty_fds init_header metadata_of run_from sent_events session_loop
      command_env_of
  record_call append old = elim (time_offset_of m.loads append m.size (map m.dumps old)) [
    | raised e ↦ raises e
    | returned offset ↦ elim (tty_fds m.tty_opens m.null_opens) [
      | none ↦ fails_io
      | some device ↦ elim (init_header append metadata_of) [
        | none ↦ fails_assertion
        | some fields ↦
            ended argv (command_env_of a.command_env m.environ) session_loop
              (run_from (v2_writer m.disk fields old) offset sent_events)
      ]
    ]
  ]

  -- `record` with the raw writer, for a file of these bytes, which has these lines as a text.
  unfoldable pub record_raw : Bool → List Text → List Bytes → Called (File Bytes)
  unfolding time_offset_of tty_fds get_tty_size run_from sent_events session_loop command_env_of
  record_raw append texts old = elim (time_offset_of m.loads append m.size texts) [
    | raised e ↦ raises e
    | returned offset ↦ elim (tty_fds m.tty_opens m.null_opens) [
      | none ↦ fails_io
      | some device ↦ ended argv (command_env_of a.command_env m.environ) session_loop (
          run_from (raw_writer m.disk append (some m.size) (get_tty_size 0) old) offset sent_events)
    ]
  ]

-- asciinema/__init__.py, `record_asciicast`
unfoldable pub record_asciicast :
    Machine
    → Option Text
    → Bool
    → Option ℤ
    → Bool
    → Option Text
    → Option (Dict Text)
    → Option (List String)
    → List Json
    → Called V2.Writer
unfolding record_call
record_asciicast m command append idle_time_limit record_stdin title command_env capture_env old =
    record_call m
      (record {
        command = command;
        idle_time_limit = idle_time_limit;
        record_stdin = record_stdin;
        title = title;
        command_env = command_env;
        capture_env = capture_env;
        key_bindings = none;
        cols_override = none;
        rows_override = none;
      })
      append old
