-- ===== src/Recorder/Works.antt =====
-- asciinema/recorder.py, `async_writer.run`, where no write fails.
use mathlib.Core.Path.{subst}
use asciinema.Base.{
  if_rule, ℕ, Bool, true, false, Option, none, some, List, [], ◌∷◌, ℤ, ◌≡◌, sym, ap, ◌∙◌,
}
use asciinema.Pty.Defs.{Entry}
use asciinema.Asciicast.Json.{Json, obj, Fields}
use asciinema.Asciicast.V2.Writer as V2
use asciinema.Asciicast.V2.Writer.{with_file, fresh, can_encode, write_header, enter, write_line}
use asciinema.FileWriter.{
  ok, io_error, other_error, ◌>>=◌, unopened, Disk, Works, open_file, try_open, write, write_failed,
  append_chunk, close,
}
use asciinema.Recorder.Worker.{Worker, done, consume, run, v2_writer}
use asciinema.Recorder.Lines.{HasText, decoded, go_on, perform_lem, queue_of}

-- The worker has met the `None` without an error before.
abbrev pub IsDone : {S : Type 0} → Worker S → Type 0
IsDone (done w queue) = Unit
IsDone _ = ⊥

module _ (disk : Disk) (works : (n : ℕ) → disk.fails n ≡ false) (header : Option Fields)
    (offset : ℤ) where
  module _ (old : List Json) where
    abbrev with_line : Json → V2.Writer → V2.Writer
    with_line l w = record w { file = append_chunk l w.file }

    write_line-ok : (l : Json) (w : V2.Writer) → write_line disk l w ≡ ok (with_line l w)
    unfolding write_line write
    write_line-ok l w =
        ap
          (λ (b : Bool).
            with_file w (elim b [
              | true ↦ io_error (write_failed w.file)
              | false ↦ ok (append_chunk l w.file)
            ]))
          (works w.file.writes)

    consume-IsDone :
        (es : List Entry) (w : V2.Writer)
        → IsDone (consume (v2_writer disk header old) offset (queue_of es) w)
    unfolding consume close
    consume-IsDone [] w = tt
    consume-IsDone (e ∷ es) w =
        subst
          (λ r.
            IsDone (
              go_on disk header old offset (queue_of es) (λ u. record u { file = close u.file }) r))
          (sym (
            perform_lem disk header old offset e w
            ∙ write_line-ok _ (decoded disk header old offset e w)))
          (consume-IsDone es (with_line _ (decoded disk header old offset e w)))

-- Where the file can be opened, no write fails and the header can be encoded, the worker ends without
-- an error.
pub run-IsDone :
    (disk : Disk) (header : Option Fields) (old : List Json) (offset : ℤ) (es : List Entry)
    → Works disk
    → HasText header
    → IsDone (run (v2_writer disk header old) offset (queue_of es))
unfolding run enter try_open write_header
run-IsDone disk none old offset es (opens, works) t =
    if_rule
      (λ r. IsDone (
        go_on disk none old offset (queue_of es) (λ u. u)
          (with_file (fresh disk (open_file true old)) r)))
      disk.opens (ok (open_file true old)) (io_error (unopened true old))
      (λ e. consume-IsDone disk works none offset old es _) (λ e. absurd cc)
run-IsDone disk (some h) old offset es (opens, works) t =
    let opened : V2.Writer = fresh disk (open_file false old) in
    let leave = go_on disk (some h) old offset (queue_of es) (λ u. u) in
    if_rule (λ r. IsDone (leave (with_file opened r >>= write_header disk h))) disk.opens
      (ok (open_file false old)) (io_error (unopened false old))
      (λ e.
        if_rule (λ r. IsDone (leave r)) (can_encode (obj h)) (write_line disk (obj h) opened)
          (other_error opened)
          (λ k.
            subst (λ r. IsDone (leave r))
              (sym (write_line-ok disk works (some h) offset old (obj h) opened))
              (consume-IsDone disk works (some h) offset old es _))
          (λ k. absurd cc))
      (λ e. absurd cc)
