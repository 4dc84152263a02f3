-- ===== src/Recorder/Whole.antt =====
-- asciinema/recorder.py, `record`: the recording loop of asciinema/pty_.py, the queue, and the worker
-- with the writer of version 2.
use mathlib.Core.Path.{subst}
use asciinema.Base.{
  ℕ, zero, suc, inl, inr, Bool, true, false, Option, some, List, [], ◌∷◌, ◌++◌, take, All, ℤ, ◌≡◌,
  refl, sym, ap, Bytes, bytes_eq,
}
use asciinema.Pty.Defs.{Entry, stdin, stdout, marker, resize, Keys, Host, session_of}
use asciinema.Pty.Copy.{Selected, record_session}
use asciinema.Asciicast.Json.{Json, arr, str, cons, Fields, obj}
use asciinema.Asciicast.V2.Writer as V2
use asciinema.Asciicast.V2.Writer.{event_json}
use asciinema.FileWriter.{Disk}
use asciinema.Utf8.{Decoder, start, decode}
use asciinema.Recorder.Worker.{
  Worker, done, failed, waiting, draining, crashed, run, v2_writer, enqueue, enqueue_all,
}
use asciinema.Recorder.Lines.{
  line, lines, next_in, next_out, Written, Ended, Untouched-rule, kept, run-Written, queue_of,
}
use asciinema.Recorder.Output.{HasOutput, output_text, output_bytes, run-HasOutput}

-- What the recording loop hands over, for these answers of the system.
unfoldable pub recorded_events : Host → Keys → List Selected → List Entry
unfolding record_session
recorded_events host keys rounds = (session_of (record_session host keys rounds)).entries

-- `record`, behind the opening of the terminal: all events are put into the queue, then `None`.
unfoldable pub record_with :
    Disk → Option Fields → List Json → ℤ → Bool → Host → Keys → List Selected → Worker V2.Writer
unfolding run enqueue_all recorded_events
record_with disk header old offset record_stdin host keys rounds =
    run (v2_writer disk header old) offset
      (queue_of (enqueue_all record_stdin (recorded_events host keys rounds)))

pub output_bytes-enqueue_all :
    (record_stdin : Bool) (es : List Entry)
    → output_bytes (enqueue_all record_stdin es) ≡ output_bytes es
unfolding output_bytes enqueue_all enqueue
output_bytes-enqueue_all record_stdin [] = refl
output_bytes-enqueue_all record_stdin (stdout ts bytes ∷ es) =
    ap (λ (t : Bytes). bytes ++ t) (output_bytes-enqueue_all record_stdin es)
output_bytes-enqueue_all true (stdin ts bytes ∷ es) = output_bytes-enqueue_all true es
output_bytes-enqueue_all false (stdin ts bytes ∷ es) = output_bytes-enqueue_all false es
output_bytes-enqueue_all record_stdin (marker ts ∷ es) = output_bytes-enqueue_all record_stdin es
output_bytes-enqueue_all record_stdin (resize ts size ∷ es) =
    output_bytes-enqueue_all record_stdin es

-- From the child's bytes to the file: whether input is recorded or not, the output lines behind what
-- the file held together hold the text that the output of the recording loop decodes to, or a
-- beginning of it where the opening, a write or the encoding of the header failed.
pub record_with-HasOutput :
    (disk : Disk) (header : Option Fields) (old : List Json) (offset : ℤ) (record_stdin : Bool)
    (host : Host) (keys : Keys) (rounds : List Selected)
    → HasOutput
        (output_text (kept header old)
          ++ (decode start (output_bytes (recorded_events host keys rounds))).text)
        (record_with disk header old offset record_stdin host keys rounds)
unfolding record_with
record_with-HasOutput disk header old offset record_stdin host keys rounds =
    let es = recorded_events host keys rounds in
    subst
      (λ b.
        HasOutput (output_text (kept header old) ++ (decode start b).text)
          (run (v2_writer disk header old) offset (queue_of (enqueue_all record_stdin es))))
      (output_bytes-enqueue_all record_stdin es)
      (run-HasOutput disk header old offset (enqueue_all record_stdin es))

-- Whether a line is one of input.
unfoldable pub is_input : Json → Bool
unfolding bytes_eq
is_input (arr (cons time (cons (str etype) rest))) = bytes_eq etype (b'i' ∷ [])
is_input _ = false

abbrev pub NoInput : List Json → Type 0
NoInput = All (λ l. is_input l ≡ false)

NoInput-take : (k : ℕ) (ls : List Json) → NoInput ls → NoInput (take k ls)
NoInput-take zero ls h = tt
NoInput-take (suc k) [] h = tt
NoInput-take (suc k) (l ∷ ls) (h, t) = (h, NoInput-take k ls t)

lines-NoInput :
    (offset : ℤ) (i o : Decoder) (es : List Entry)
    → NoInput (lines offset i o (enqueue_all false es))
unfolding lines line next_in next_out enqueue_all enqueue event_json is_input bytes_eq
lines-NoInput offset i o [] = tt
lines-NoInput offset i o (stdout ts bytes ∷ es) =
    (refl, lines-NoInput offset i (decode o bytes).decoder es)
lines-NoInput offset i o (stdin ts bytes ∷ es) = lines-NoInput offset i o es
lines-NoInput offset i o (marker ts ∷ es) = (refl, lines-NoInput offset i o es)
lines-NoInput offset i o (resize ts size ∷ es) = (refl, lines-NoInput offset i o es)

-- The worker has ended, and no line of the file is one of input.
abbrev pub IsPrivate : Worker V2.Writer → Type 0
IsPrivate (done w queue) = NoInput w.file.content
IsPrivate (failed w queue) = NoInput w.file.content
IsPrivate (crashed w) = NoInput w.file.content
IsPrivate _ = ⊥

Written-IsPrivate :
    (new : List Json) (r : Worker V2.Writer) → NoInput new → Written [] new r → IsPrivate r
Written-IsPrivate new (done w queue) h k = subst NoInput (sym k.0) h
Written-IsPrivate new (failed w queue) h k =
    subst NoInput (sym k.1.1.1.1) (NoInput-take k.1.1.0 new h)
Written-IsPrivate new (waiting w) h k = k
Written-IsPrivate new (draining w) h k = k
Written-IsPrivate new (crashed w) h k = elim k [ ]

Ended-IsPrivate :
    (disk : Disk) (header : Option Fields) (new : List Json) (r : Worker V2.Writer)
    → NoInput new
    → Ended disk header [] new r
    → IsPrivate r
Ended-IsPrivate disk header new r h (inl k) = Written-IsPrivate new r h k
Ended-IsPrivate disk header new r h (inr u) =
    Untouched-rule IsPrivate disk header [] r (λ w queue c e. subst NoInput (sym c) tt)
      (λ w c e. subst NoInput (sym c) tt) u

-- Unless input is to be recorded, nothing that is typed gets into a new file as input, whatever is
-- typed and however the recording ends.
pub record_with-IsPrivate :
    (disk : Disk) (h : Fields) (old : List Json) (offset : ℤ) (host : Host) (keys : Keys)
    (rounds : List Selected)
    → IsPrivate (record_with disk (some h) old offset false host keys rounds)
unfolding record_with is_input
record_with-IsPrivate disk h old offset host keys rounds =
    let es = recorded_events host keys rounds in
    Ended-IsPrivate disk (some h) (obj h ∷ lines offset start start (enqueue_all false es))
      (run (v2_writer disk (some h) old) offset (queue_of (enqueue_all false es)))
      (refl, lines-NoInput offset start start es)
      (run-Written disk (some h) old offset (enqueue_all false es))
