-- ===== src/Recorder/Worker.antt =====
-- asciinema/recorder.py, `async_writer`, over asciinema/async_worker.py: the recording loop puts
-- events into a queue, and a worker writes them. `None` ends the queue.
use asciinema.Base.{ℕ, if◌then◌else◌, Bool, Option, none, some, List, [], ◌∷◌, ◌++◌, Bytes, ℤ, ◌+ℤ◌}
use asciinema.Pty.Defs.{Size, Entry, stdin, stdout, marker, resize}
use asciinema.Asciicast.V2.Writer as V2
use asciinema.Asciicast.Raw
use asciinema.Asciicast.Json.{Fields, Json}
use asciinema.FileWriter
use asciinema.FileWriter.{File, Result, ok, io_error, other_error, Disk}

-- What the worker calls of a writer.
pub record Writer : Type 1 where
  pub State : Type 0
  pub enter : Result State
  pub write_stdout : ℤ → Bytes → State → Result State
  pub write_stdin : ℤ → Bytes → State → Result State
  pub write_marker : ℤ → State → Result State
  pub write_resize : ℤ → Size → State → Result State
  pub exit : State → State

abbrev pub v2_writer : Disk → Option Fields → List Json → Writer
v2_writer disk header old = record {
  State = V2.Writer;
  enter = V2.enter disk header old;
  write_stdout = λ ts bytes w. V2.write_stdout disk ts (V2.raw bytes) w;
  write_stdin = λ ts bytes w. V2.write_stdin disk ts (V2.raw bytes) w;
  write_marker = V2.write_marker disk;
  write_resize = λ ts size w. V2.write_resize disk ts size.cols size.rows w;
  exit = λ w. record w { file = FileWriter.close w.file };
}

abbrev pub raw_writer : Disk → Bool → Option ℕ → Size → List Bytes → Writer
raw_writer disk append size screen old = record {
  State = File Bytes;
  enter = Raw.enter disk append size screen.cols screen.rows old;
  write_stdout = Raw.write_stdout disk;
  write_stdin = Raw.write_stdin disk;
  write_marker = Raw.write_marker disk;
  write_resize = λ ts size w. Raw.write_resize disk ts size.cols size.rows w;
  exit = FileWriter.close;
}

-- The calls of `async_writer` in the recording process: what is put into the queue.
unfoldable pub enqueue : Bool → Entry → List Entry
enqueue record_stdin (stdin ts bytes) = if record_stdin then stdin ts bytes ∷ [] else []
enqueue record_stdin event = event ∷ []

unfoldable pub enqueue_all : Bool → List Entry → List Entry
unfolding enqueue
enqueue_all record_stdin [] = []
enqueue_all record_stdin (event ∷ events) =
    enqueue record_stdin event ++ enqueue_all record_stdin events

-- How the worker stands: it has met the `None`, with or without an `IOError` before, and leaves the
-- rest of the queue; or it waits for more; or another exception has ended it.
pub data Worker (S : Type 0) : Type 0 where
  done failed : S → List (Option Entry) → Worker S
  waiting draining : S → Worker S
  crashed : S → Worker S

-- `for event in iter(self.queue.get, None): pass`
unfoldable pub drain : {S : Type 0} → List (Option Entry) → S → Worker S
drain [] s = draining s
drain (none ∷ queue) s = failed s queue
drain (some event ∷ queue) s = drain queue s

module _ (w : Writer) (time_offset : ℤ) where
  open w use {State, enter, write_stdout, write_stdin, write_marker, write_resize, exit}

  unfoldable pub perform : Entry → State → Result State
  perform (stdout ts bytes) s = write_stdout (time_offset +ℤ ts) bytes s
  perform (stdin ts bytes) s = write_stdin (time_offset +ℤ ts) bytes s
  perform (marker ts) s = write_marker (time_offset +ℤ ts) s
  perform (resize ts size) s = write_resize (time_offset +ℤ ts) size s

  -- The body of the `with` block. Leaving it closes the file.
  unfoldable pub consume : List (Option Entry) → State → Worker State
  unfolding perform drain
  consume [] s = waiting s
  consume (none ∷ queue) s = done (exit s) queue
  consume (some event ∷ queue) s = elim (perform event s) [
    | ok s' ↦ consume queue s'
    | io_error s' ↦ drain queue (exit s')
    | other_error s' ↦ crashed (exit s')
  ]

  -- `run`. A writer that cannot be entered is not left.
  unfoldable pub run : List (Option Entry) → Worker State
  unfolding consume
  run queue = elim enter [
    | ok s ↦ consume queue s
    | io_error s ↦ drain queue s
    | other_error s ↦ crashed s
  ]
