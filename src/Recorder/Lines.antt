-- ===== src/Recorder/Lines.antt =====
-- asciinema/recorder.py, `async_writer.run` with the writer of asciinema/asciicast/v2.py: what the
-- file holds when the worker has ended.
use mathlib.Core.Path.{subst}
use asciinema.Base.{
  ℕ, suc, ◌<◌, Bool, if_rule, ◌⊎◌, inl, inr, true, false, Option, none, some, List, [], ◌∷◌, ◌++◌,
  map, append_assoc, append-nil, length, take, ℤ, ◌+ℤ◌, ◌≡◌, refl, sym, ap, ◌∙◌, arith, String,
}
use asciinema.Pty.Defs.{Entry, stdin, stdout, marker, resize}
use asciinema.Asciicast.Json.{Json, obj, Fields}
use asciinema.Asciicast.V2.Writer as V2
use asciinema.Asciicast.V2.Writer.{
  event_json, decimal, with_file, fresh, can_encode, write_header, enter, write_line, write_event,
  write_stdout, write_stdin, write_marker, write_resize,
}
use asciinema.FileWriter.{
  File, Result, ok, io_error, other_error, Disk, write, open_file, unopened, try_open, write_failed,
  append_chunk, close, ◌>>=◌,
}
use asciinema.Utf8.{Decoder, start, decode}
use asciinema.Recorder.Worker.{
  Worker, done, failed, waiting, draining, crashed, drain, perform, consume, run, v2_writer,
}

-- The line of one event, and the lines of the events one after the other, where input and output
-- have a decoder each.
unfoldable pub line : ℤ → Decoder → Decoder → Entry → Json
line offset i o (stdout ts bytes) = event_json (offset +ℤ ts) (b'o' ∷ []) (decode o bytes).text
line offset i o (stdin ts bytes) = event_json (offset +ℤ ts) (b'i' ∷ []) (decode i bytes).text
line offset i o (marker ts) = event_json (offset +ℤ ts) (b'm' ∷ []) []
line offset i o (resize ts size) =
    event_json (offset +ℤ ts) (b'r' ∷ []) (decimal size.cols ++ b'x' ∷ decimal size.rows)

unfoldable pub next_in : Decoder → Entry → Decoder
next_in i (stdin ts bytes) = (decode i bytes).decoder
next_in i _ = i

unfoldable pub next_out : Decoder → Entry → Decoder
next_out o (stdout ts bytes) = (decode o bytes).decoder
next_out o _ = o

unfoldable pub lines : ℤ → Decoder → Decoder → List Entry → List Json
unfolding line next_in next_out
lines offset i o [] = []
lines offset i o (e ∷ es) = line offset i o e ∷ lines offset (next_in i e) (next_out o e) es

-- The worker has ended and has taken the whole queue. All lines stand behind what the file held,
-- and the file is closed; or a write has failed, the lines before it are there, no other is whole,
-- and the failure was reported once.
abbrev pub Written : List Json → List Json → Worker V2.Writer → Type 0
Written old new (done w queue) =
    (w.file.content ≡ old ++ new)
    × ((queue ≡ []) × ((w.file.is_open ≡ false) × (w.file.errors ≡ [])))
Written old new (failed w queue) =
    (queue ≡ [])
    × ((w.file.errors ≡ "Write error, recording suspended" ∷ [])
        × ((k : ℕ) × ((k < length new) × (w.file.content ≡ old ++ take k new))))
Written old new _ = ⊥

abbrev pub queue_of : List Entry → List (Option Entry)
queue_of es = map some es ++ none ∷ []

pub drain-queue_of : {S : Type 0} (es : List Entry) (s : S) → drain (queue_of es) s ≡ failed s []
unfolding drain
drain-queue_of [] s = refl
drain-queue_of (e ∷ es) s = drain-queue_of es s

-- A line that has been written goes before the others.
cons-Written :
    (old : List Json) (l : Json) (ls : List Json) (r : Worker V2.Writer)
    → Written (old ++ l ∷ []) ls r
    → Written old (l ∷ ls) r
cons-Written old l ls (done w queue) (c, h) = (c ∙ append_assoc old (l ∷ []) ls, h)
cons-Written old l ls (failed w queue) (q, (e, (k, (b, c)))) =
    (q, (e, (suc k, (omega (arith, b), c ∙ append_assoc old (l ∷ []) (take k ls)))))
cons-Written old l ls (waiting w) h = h
cons-Written old l ls (draining w) h = h
cons-Written old l ls (crashed w) h = h

module _ (disk : Disk) (header : Option Fields) (old : List Json) (offset : ℤ) where
  -- What `consume` does with the result of one write, and `run` with that of the header.
  abbrev pub go_on :
      List (Option Entry) → (V2.Writer → V2.Writer) → Result V2.Writer → Worker V2.Writer
  go_on queue leave r = elim r [
    | ok w ↦ consume (v2_writer disk header old) offset queue w
    | io_error w ↦ drain queue (leave w)
    | other_error w ↦ crashed (leave w)
  ]

  write_line-Written :
      (es : List Entry) (leave : V2.Writer → V2.Writer) (l : Json) (ls : List Json) (w : V2.Writer)
      → ((u : V2.Writer)
          → ((leave u).file.content ≡ u.file.content) × ((leave u).file.errors ≡ u.file.errors))
      → w.file.errors ≡ []
      → ((f : File Json)
          → f.errors ≡ []
          → Written f.content ls
              (consume (v2_writer disk header old) offset (queue_of es) (record w { file = f })))
      → Written w.file.content (l ∷ ls) (go_on (queue_of es) leave (write_line disk l w))
  unfolding write_line write write_failed append_chunk
  write_line-Written es leave l ls w same e k =
      elim (disk.fails w.file.writes)
        as (λ b. Written w.file.content (l ∷ ls) (
          go_on (queue_of es) leave (
            with_file w (elim b [
              | true ↦ io_error (write_failed w.file)
              | false ↦ ok (append_chunk l w.file)
            ])))) [
              | true ↦
                  let u = record w { file = write_failed w.file } in
                  rw (drain-queue_of es (leave u)) (
                    refl,
                    (
                      (same u).1
                          ∙ ap (λ (t : List String). t ++ "Write error, recording suspended" ∷ [])
                              e,
                      (0, (omega arith, (same u).0 ∙ sym (append-nil w.file.content))),
                    ),
                  )
              | false ↦ cons-Written w.file.content l ls _ (k (append_chunk l w.file) e)
            ]

  -- The decoders behind an event.
  abbrev pub decoded : Entry → V2.Writer → V2.Writer
  decoded event w = record w {
    stdin_decoder = next_in w.stdin_decoder event;
    stdout_decoder = next_out w.stdout_decoder event;
  }

  pub perform_lem :
      (event : Entry) (w : V2.Writer)
      → perform (v2_writer disk header old) offset event w
        ≡ write_line disk (line offset w.stdin_decoder w.stdout_decoder event) (decoded event w)
  unfolding perform line next_in next_out write_stdout write_stdin write_marker write_resize
      write_event
  perform_lem (stdout ts bytes) w = refl
  perform_lem (stdin ts bytes) w = refl
  perform_lem (marker ts) w = refl
  perform_lem (resize ts size) w = refl

  consume-Written :
      (es : List Entry) (w : V2.Writer)
      → w.file.errors ≡ []
      → Written w.file.content
          (lines offset w.stdin_decoder w.stdout_decoder es)
          (consume (v2_writer disk header old) offset (queue_of es) w)
  unfolding consume lines close
  consume-Written [] w e = (sym (append-nil w.file.content), (refl, (refl, e)))
  consume-Written (event ∷ es) w e =
      subst
        (λ r.
          Written w.file.content (lines offset w.stdin_decoder w.stdout_decoder (event ∷ es))
            (go_on (queue_of es) (λ u. record u { file = close u.file }) r))
        (sym (perform_lem event w))
        (write_line-Written es (λ u. record u { file = close u.file })
          (line offset w.stdin_decoder w.stdout_decoder event)
          (lines offset (next_in w.stdin_decoder event) (next_out w.stdout_decoder event) es)
          (decoded event w) (λ u. (refl, refl)) e
          λ f h. consume-Written es (record (decoded event w) { file = f }) h)

-- The lines that a run should add, and what the file held behind which they go.
abbrev pub run_lines : Option Fields → ℤ → List Entry → List Json
run_lines none offset es = lines offset start start es
run_lines (some h) offset es = obj h ∷ lines offset start start es

abbrev pub kept : Option Fields → List Json → List Json
kept none old = old
kept (some h) old = []

-- Nothing has been written: the file could not be opened, which is not reported, and the worker has
-- ended and has taken the whole queue; or the header cannot be encoded, and an exception has ended
-- the worker.
abbrev pub Untouched : Disk → Option Fields → List Json → Worker V2.Writer → Type 0
Untouched disk header old (failed w queue) =
    (disk.opens ≡ false) × ((queue ≡ []) × ((w.file.errors ≡ []) × (w.file.content ≡ old)))
Untouched disk (some h) old (crashed w) =
    (can_encode (obj h) ≡ false) × ((w.file.errors ≡ []) × (w.file.content ≡ old))
Untouched disk header old _ = ⊥

-- How the worker ends, whatever the file and the header are.
abbrev pub Ended : Disk → Option Fields → List Json → List Json → Worker V2.Writer → Type 0
Ended disk header old new r = Written old new r ⊎ Untouched disk header old r

-- A worker that has written nothing has failed or crashed with what the file held.
pub Untouched-rule :
    (P : Worker V2.Writer → Type 0) (disk : Disk) (header : Option Fields) (old : List Json)
    (r : Worker V2.Writer)
    → ((w : V2.Writer) (queue : List (Option Entry))
        → w.file.content ≡ old
        → w.file.errors ≡ []
        → P (failed w queue))
    → ((w : V2.Writer) → w.file.content ≡ old → w.file.errors ≡ [] → P (crashed w))
    → Untouched disk header old r
    → P r
Untouched-rule P disk header old (failed w queue) f c u = f w queue u.1.1.1 u.1.1.0
Untouched-rule P disk (some h) old (crashed w) f c u = c w u.1.1 u.1.0
Untouched-rule P disk none old (crashed w) f c u = elim u [ ]
Untouched-rule P disk header old (done w queue) f c u = elim u [ ]
Untouched-rule P disk header old (waiting w) f c u = elim u [ ]
Untouched-rule P disk header old (draining w) f c u = elim u [ ]

-- The header, if there is one, has no surrogate in it.
abbrev pub HasText : Option Fields → Type 0
HasText none = Unit
HasText (some h) = can_encode (obj h) ≡ true

module _ (disk : Disk) (old : List Json) (offset : ℤ) (es : List Entry) where
  unopened-Ended :
      (header : Option Fields) (append : Bool)
      → disk.opens ≡ false
      → Ended disk header
          (unopened append old).content
          (run_lines header offset es)
          (drain (queue_of es) (fresh disk (unopened append old)))
  unfolding unopened open_file
  unopened-Ended header true e = inr (rw (drain-queue_of es) (e, (refl, (refl, refl))))
  unopened-Ended header false e = inr (rw (drain-queue_of es) (e, (refl, (refl, refl))))

  headed-Ended :
      (h : Fields)
      → Ended disk (some h) [] (run_lines (some h) offset es) (
          go_on disk
            (some h)
            old
            offset
            (queue_of es)
            (λ u. u)
            (write_header disk h (fresh disk (open_file false old))))
  unfolding write_header open_file
  headed-Ended h =
      if_rule
        (λ r.
          Ended disk (some h) [] (run_lines (some h) offset es)
            (go_on disk (some h) old offset (queue_of es) (λ u. u) r))
        (can_encode (obj h)) (write_line disk (obj h) (fresh disk (open_file false old)))
        (other_error (fresh disk (open_file false old)))
        (λ e. inl (
          write_line-Written disk (some h) old offset es (λ u. u) (obj h)
            (lines offset start start es) (fresh disk (open_file false old)) (λ u. (refl, refl))
            refl
            λ f k.
              consume-Written disk (some h) old offset es
                (record (fresh disk (open_file false old)) { file = f }) k))
        (λ e. inr (e, (refl, refl)))

-- However many events are put into the queue before the `None` that ends it: if the file can be
-- opened and the header encoded, the worker ends and takes them all. The file then holds what it held
-- before, or with a header the header, and behind it a line for every event, in their order; or,
-- where a write failed, a proper prefix of these lines, but for a part of the next one, and the
-- failure was reported once. If the file cannot be opened, the worker ends as well and takes all, and
-- if the header has a surrogate in it, an exception ends the worker; then nothing is written and
-- nothing reported.
pub run-Written :
    (disk : Disk) (header : Option Fields) (old : List Json) (offset : ℤ) (es : List Entry)
    → Ended disk header
        (kept header old)
        (run_lines header offset es)
        (run (v2_writer disk header old) offset (queue_of es))
unfolding run enter try_open open_file unopened
run-Written disk none old offset es =
    if_rule
      (λ r. Ended disk none old (lines offset start start es) (
        go_on disk none old offset (queue_of es) (λ u. u)
          (with_file (fresh disk (open_file true old)) r)))
      disk.opens (ok (open_file true old)) (io_error (unopened true old))
      (λ e. inl (consume-Written disk none old offset es (fresh disk (open_file true old)) refl))
      (λ e. unopened-Ended disk old offset es none true e)
run-Written disk (some h) old offset es =
    if_rule
      (λ r. Ended disk (some h) [] (obj h ∷ lines offset start start es) (
        go_on disk (some h) old offset (queue_of es) (λ u. u)
          (with_file (fresh disk (open_file false old)) r >>= write_header disk h)))
      disk.opens (ok (open_file false old)) (io_error (unopened false old))
      (λ e. headed-Ended disk old offset es h)
      (λ e. unopened-Ended disk old offset es (some h) false e)
