-- ===== src/Recorder/Output.antt =====
-- asciinema/recorder.py: the output that a recording shows, against the bytes that the child wrote.
use mathlib.Core.Path.{subst}
use asciinema.Base.{
  if◌then◌else◌, inl, inr, Option, none, some, List, [], ◌∷◌, ◌++◌, append_assoc, take, drop,
  take-append-drop, ℤ, ◌≡◌, refl, sym, ap, ◌∙◌, Text, Bytes, bytes_eq,
}
use asciinema.Pty.Defs.{Entry, stdin, stdout, marker, resize}
use asciinema.Asciicast.Json.{Json, arr, str, cons, nil, Fields}
use asciinema.Asciicast.V2.Writer as V2
use asciinema.Asciicast.V2.Writer.{event_json}
use asciinema.FileWriter.{Disk}
use asciinema.Utf8.{Decoder, start, decode}
use asciinema.Utf8.Laws.{decode-append}
use asciinema.Recorder.Worker.{Worker, done, failed, waiting, draining, crashed, run, v2_writer}
use asciinema.Recorder.Lines.{
  line, lines, next_in, next_out, Written, Ended, Untouched-rule, kept, run_lines, run-Written,
  queue_of,
}

-- The text of a line, if it is one of output.
unfoldable output_of : Json → Text
unfolding bytes_eq
output_of (arr (cons time (cons (str etype) (cons (str content) nil)))) =
    if bytes_eq etype (b'o' ∷ []) then content else []
output_of _ = []

unfoldable pub output_text : List Json → Text
unfolding output_of
output_text [] = []
output_text (l ∷ ls) = output_of l ++ output_text ls

unfoldable pub output_bytes : List Entry → Bytes
output_bytes [] = []
output_bytes (stdout ts bytes ∷ es) = bytes ++ output_bytes es
output_bytes (_ ∷ es) = output_bytes es

output_text-append : (xs ys : List Json) → output_text (xs ++ ys) ≡ output_text xs ++ output_text ys
unfolding output_text
output_text-append [] ys = refl
output_text-append (x ∷ xs) ys =
    rw (output_text-append xs ys)
      (sym (append_assoc (output_of x) (output_text xs) (output_text ys)))

lines-output :
    (offset : ℤ) (i o : Decoder) (es : List Entry)
    → output_text (lines offset i o es) ≡ (decode o (output_bytes es)).text
unfolding output_text output_of lines line next_in next_out output_bytes event_json decode bytes_eq
lines-output offset i o [] = refl
lines-output offset i o (stdout ts bytes ∷ es) =
    rw (lines-output offset i (decode o bytes).decoder es, decode-append o bytes (output_bytes es))
      refl
lines-output offset i o (stdin ts bytes ∷ es) = lines-output offset (decode i bytes).decoder o es
lines-output offset i o (marker ts ∷ es) = lines-output offset i o es
lines-output offset i o (resize ts size ∷ es) = lines-output offset i o es

-- The worker has ended, and the file shows all of this text, or a beginning of it where it failed.
abbrev pub HasOutput : Text → Worker V2.Writer → Type 0
HasOutput t (done w queue) = output_text w.file.content ≡ t
HasOutput t (failed w queue) = (rest : Text) × (output_text w.file.content ++ rest ≡ t)
HasOutput t (crashed w) = (rest : Text) × (output_text w.file.content ++ rest ≡ t)
HasOutput t _ = ⊥

Written-HasOutput :
    (old new : List Json) (r : Worker V2.Writer)
    → Written old new r
    → HasOutput (output_text old ++ output_text new) r
Written-HasOutput old new (done w queue) h = ap output_text h.0 ∙ output_text-append old new
Written-HasOutput old new (failed w queue) h =
    let k = h.1.1.0 in
    (
      output_text (drop k new),
      rw
          (
            h.1.1.1.1,
            output_text-append old (take k new),
            append_assoc (output_text old) (output_text (take k new)) (output_text (drop k new)),
            sym (output_text-append (take k new) (drop k new)),
            take-append-drop k new,
          )
          refl,
    )
Written-HasOutput old new (waiting w) h = h
Written-HasOutput old new (draining w) h = h
Written-HasOutput old new (crashed w) h = elim h [ ]

Ended-HasOutput :
    (disk : Disk) (header : Option Fields) (old new : List Json) (r : Worker V2.Writer)
    → Ended disk header old new r
    → HasOutput (output_text old ++ output_text new) r
Ended-HasOutput disk header old new r (inl h) = Written-HasOutput old new r h
Ended-HasOutput disk header old new r (inr u) =
    Untouched-rule (HasOutput (output_text old ++ output_text new)) disk header old r
      (λ w queue c e. (output_text new, rw c refl)) (λ w c e. (output_text new, rw c refl)) u

run_lines-output :
    (header : Option Fields) (offset : ℤ) (es : List Entry)
    → output_text (run_lines header offset es) ≡ (decode start (output_bytes es)).text
unfolding output_text output_of
run_lines-output none offset es = lines-output offset start start es
run_lines-output (some h) offset es = lines-output offset start start es

-- The output lines of the file, behind those it held before, together hold the text that all bytes
-- of output decode to, however they were split into events: no character is lost or broken at the
-- end of an event. Where the opening, a write or the encoding of the header failed, they hold a
-- beginning of it.
pub run-HasOutput :
    (disk : Disk) (header : Option Fields) (old : List Json) (offset : ℤ) (es : List Entry)
    → HasOutput
        (output_text (kept header old) ++ (decode start (output_bytes es)).text)
        (run (v2_writer disk header old) offset (queue_of es))
run-HasOutput disk header old offset es =
    subst
      (λ t.
        HasOutput (output_text (kept header old) ++ t)
          (run (v2_writer disk header old) offset (queue_of es)))
      (run_lines-output header offset es)
      (Ended-HasOutput disk header (kept header old) (run_lines header offset es)
        (run (v2_writer disk header old) offset (queue_of es))
        (run-Written disk header old offset es))
