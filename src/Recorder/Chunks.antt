-- ===== src/Recorder/Chunks.antt =====
-- asciinema/recorder.py, `async_writer.run` with the writer of asciinema/asciicast/raw.py: what the
-- file holds when the worker has ended.
use mathlib.Core.Path.{subst}
use asciinema.Base.{
  ℕ, suc, ◌<◌, ◌≡◌, none, some, if_rule, ◌∙◌, if◌then◌else◌, Bool, true, false, Option, List, [],
  ◌∷◌, ◌++◌, append_assoc, append-nil, length, take, ℤ, refl, sym, ap, arith, Bytes, String,
}
use asciinema.Pty.Defs.{Size, Entry, stdin, stdout, marker, resize}
use asciinema.Asciicast.Raw.{
  appends, enter, write_stdout, write_stdin, write_marker, write_resize, resize_sequence, taken,
  write_bytes,
}
use asciinema.FileWriter.{
  File, Result, ok, io_error, other_error, Disk, write, open_file, try_open, ◌>>=◌, write_failed,
  append_chunk, close,
}
use asciinema.Recorder.Worker.{
  Worker, done, failed, waiting, draining, crashed, drain, perform, consume, run, raw_writer,
}
use asciinema.Recorder.Lines.{queue_of, drain-queue_of}

-- What is written for one event, if anything.
unfoldable pub chunk : Entry → List Bytes
chunk (stdout ts bytes) = bytes ∷ []
chunk (resize ts size) = resize_sequence size.cols size.rows ∷ []
chunk _ = []

unfoldable pub chunks : List Entry → List Bytes
unfolding chunk
chunks [] = []
chunks (e ∷ es) = chunk e ++ chunks es

-- The worker has ended and has taken the whole queue. All chunks stand behind what the file held,
-- and the file is closed; or a write has failed, the chunks before it are there, no other is, and
-- the failure was reported once.
abbrev pub WrittenRaw : List Bytes → List Bytes → Worker (File Bytes) → Type 0
WrittenRaw old new (done f queue) =
    (f.content ≡ old ++ new) × ((queue ≡ []) × ((f.is_open ≡ false) × (f.errors ≡ [])))
WrittenRaw old new (failed f queue) =
    (queue ≡ [])
    × ((f.errors ≡ "Write error, recording suspended" ∷ [])
        × ((k : ℕ) × ((k < length new) × (f.content ≡ old ++ take k new))))
WrittenRaw old new _ = ⊥

cons-WrittenRaw :
    (old : List Bytes) (c : Bytes) (cs : List Bytes) (r : Worker (File Bytes))
    → WrittenRaw (old ++ c ∷ []) cs r
    → WrittenRaw old (c ∷ cs) r
cons-WrittenRaw old c cs (done f queue) (h, k) = (h ∙ append_assoc old (c ∷ []) cs, k)
cons-WrittenRaw old c cs (failed f queue) (q, (e, (k, (b, h)))) =
    (q, (e, (suc k, (omega (arith, b), h ∙ append_assoc old (c ∷ []) (take k cs)))))
cons-WrittenRaw old c cs (waiting f) h = h
cons-WrittenRaw old c cs (draining f) h = h
cons-WrittenRaw old c cs (crashed f) h = h

module _ (disk : Disk) (append : Bool) (size : Option ℕ) (screen : Size) (old : List Bytes)
    (offset : ℤ) (whole : (n : ℕ) → disk.short n ≡ none) where
  -- What `consume` does with the result of one write, and `run` with that of the header.
  abbrev go_on :
      List (Option Entry) → (File Bytes → File Bytes) → Result (File Bytes) → Worker (File Bytes)
  go_on queue leave r = elim r [
    | ok f ↦ consume (raw_writer disk append size screen old) offset queue f
    | io_error f ↦ drain queue (leave f)
    | other_error f ↦ crashed (leave f)
  ]

  write_bytes-write : (c : Bytes) (f : File Bytes) → write_bytes disk c f ≡ write disk c f
  unfolding write_bytes taken
  write_bytes-write c f =
      ap (λ (o : Option ℕ). write disk (elim o [ none ↦ c | some k ↦ take k c ]) f) (whole f.writes)

  write-WrittenRaw :
      (es : List Entry) (leave : File Bytes → File Bytes) (c : Bytes) (cs : List Bytes)
      (f : File Bytes)
      → ((g : File Bytes) → ((leave g).content ≡ g.content) × ((leave g).errors ≡ g.errors))
      → f.errors ≡ []
      → ((g : File Bytes)
          → g.errors ≡ []
          → WrittenRaw g.content cs
              (consume (raw_writer disk append size screen old) offset (queue_of es) g))
      → WrittenRaw f.content (c ∷ cs) (go_on (queue_of es) leave (write_bytes disk c f))
  unfolding write write_failed append_chunk
  write-WrittenRaw es leave c cs f same e k =
      subst (λ r. WrittenRaw f.content (c ∷ cs) (go_on (queue_of es) leave r))
        (sym (write_bytes-write c f))
        (elim (disk.fails f.writes)
          as (λ b. WrittenRaw f.content (c ∷ cs) (
            go_on (queue_of es) leave
              (elim b [ true ↦ io_error (write_failed f) | false ↦ ok (append_chunk c f) ]))) [
                | true ↦
                    let g = write_failed f in
                    rw (drain-queue_of es (leave g)) (
                      refl,
                      (
                        (same g).1
                            ∙ ap (λ (t : List String). t ++ "Write error, recording suspended" ∷ [])
                                e,
                        (0, (omega arith, (same g).0 ∙ sym (append-nil f.content))),
                      ),
                    )
                | false ↦ cons-WrittenRaw f.content c cs _ (k (append_chunk c f) e)
              ])

  consume-WrittenRaw :
      (es : List Entry) (f : File Bytes)
      → f.errors ≡ []
      → WrittenRaw f.content
          (chunks es)
          (consume (raw_writer disk append size screen old) offset (queue_of es) f)
  unfolding consume perform chunks chunk close write_stdout write_stdin write_marker write_resize
  consume-WrittenRaw [] f e = (sym (append-nil f.content), (refl, (refl, e)))
  consume-WrittenRaw (stdout ts bytes ∷ es) f e =
      write-WrittenRaw es close bytes (chunks es) f (λ g. (refl, refl)) e (consume-WrittenRaw es)
  consume-WrittenRaw (resize ts z ∷ es) f e =
      write-WrittenRaw es close (resize_sequence z.cols z.rows) (chunks es) f (λ g. (refl, refl)) e
        (consume-WrittenRaw es)
  consume-WrittenRaw (stdin ts bytes ∷ es) f e = consume-WrittenRaw es f e
  consume-WrittenRaw (marker ts ∷ es) f e = consume-WrittenRaw es f e

try_open-ok :
    (disk : Disk)
    → disk.opens ≡ true
    → (append : Bool) (old : List Bytes) → try_open disk append old ≡ ok (open_file append old)
unfolding try_open
try_open-ok disk e append old =
    if_rule (λ r. r ≡ ok (open_file append old)) disk.opens _ _ (λ k. refl) (λ k. absurd cc)

-- What the file should hold before the chunks of the events, and what is written for a new one.
abbrev pub kept_raw : Bool → List Bytes → List Bytes
kept_raw true old = old
kept_raw false old = []

abbrev pub run_chunks : Bool → Size → List Entry → List Bytes
run_chunks true screen es = chunks es
run_chunks false screen es = resize_sequence screen.cols screen.rows ∷ chunks es

-- If the file can be opened, and takes all bytes of a write or lets it fail, with the raw writer the
-- worker ends and takes the whole queue. Where the writer appends, the file
-- holds what it held before, and else only the sequence that sets the size; behind that all output
-- and the sequences of the resizes, in order, and neither input nor markers. Or a write has failed,
-- the file has a proper beginning of that, and the failure was reported once.
pub run-WrittenRaw :
    (disk : Disk) (append : Bool) (size : Option ℕ) (screen : Size) (old : List Bytes) (offset : ℤ)
    (es : List Entry)
    → disk.opens ≡ true
    → ((n : ℕ) → disk.short n ≡ none)
    → WrittenRaw
        (kept_raw (appends append size) old)
        (run_chunks (appends append size) screen es)
        (run (raw_writer disk append size screen old) offset (queue_of es))
unfolding run enter try_open
run-WrittenRaw disk append size screen old offset es opens whole =
    elim (appends append size)
      as (λ b. WrittenRaw (kept_raw b old) (run_chunks b screen es) (
        go_on disk append size screen old offset whole (queue_of es) (λ f. f)
          (if b
            then try_open disk true old
            else try_open disk false old
              >>= write_bytes disk (resize_sequence screen.cols screen.rows)))) [
                | true ↦
                    subst
                      (λ r.
                        WrittenRaw old (chunks es)
                          (go_on disk append size screen old offset whole (queue_of es) (λ f. f) r))
                      (sym (try_open-ok disk opens true old))
                      (consume-WrittenRaw disk append size screen old offset whole es
                        (open_file true old) refl)
                | false ↦
                    subst
                      (λ r. WrittenRaw [] (resize_sequence screen.cols screen.rows ∷ chunks es) (
                        go_on disk append size screen old offset whole (queue_of es) (λ f. f)
                          (r >>= write_bytes disk (resize_sequence screen.cols screen.rows))))
                      (sym (try_open-ok disk opens false old))
                      (write-WrittenRaw disk append size screen old offset whole es (λ f. f)
                        (resize_sequence screen.cols screen.rows) (chunks es) (open_file false old)
                        (λ f. (refl, refl)) refl
                        (consume-WrittenRaw disk append size screen old offset whole es))
              ]
