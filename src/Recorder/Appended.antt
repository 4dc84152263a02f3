-- ===== src/Recorder/Appended.antt =====
-- asciinema/recorder.py with `append`: the times in a file that two recordings have written.
mod Tests
use mathlib.Core.Path.{subst}
use asciinema.Base.{
  inl, inr, ℕ, zero, suc, ltb, ◌&&◌, ◌<◌, if◌then◌else◌, Bool, true, false, Option, none, some,
  List, [], ◌∷◌, ◌++◌, append-nil, append_assoc, map, take, drop, take-append-drop, ℤ, pos, ◌+ℤ◌,
  ◌≤ℤ◌, int_laws, bytes_eq, Text, ◌≡◌, refl, sym, ap, ◌∙◌, arith,
}
use asciinema.Pty.Defs.{Entry, stdin, stdout, marker, resize, Keys, Host, session_of}
use asciinema.Pty.Copy.{Selected, record_session}
use asciinema.Pty.Rising.{Rising}
use asciinema.Pty.Timing.{IsClock, horizon, record_session-Rising}
use asciinema.Asciicast.Json.{Json, int, float, arr, str, cons, nil, Fields, obj, end}
use asciinema.Asciicast.V2.Writer as V2
use asciinema.Asciicast.V2.Writer.{event_json, round_time}
use asciinema.Asciicast.V2.Reader.{Read, returned, raised, has_version, get_duration}
use asciinema.FileWriter.{Disk}
use asciinema.Utf8.{Decoder, start, decode}
use asciinema.Recorder.Worker.{
  Worker, done, failed, waiting, draining, crashed, run, v2_writer, enqueue, enqueue_all,
}
use asciinema.Recorder.Lines.{
  line, lines, next_in, next_out, Written, Ended, Untouched-rule, run-Written, queue_of,
}
use asciinema.Recorder.Duration.{Holds, last_output, duration, get_duration-held}
use asciinema.Recorder.Metadata.{time_offset_of}
use asciinema.Recorder.Whole.{recorded_events, record_with}
use asciinema.Recorder.Times.{round_time_mono, round_time_idem}
use asciinema.Recorder.Sorted.{
  Sorted-append, Sorted-front, Sorted-lower, output_times-append, Rising-Sorted,
  event_times-enqueue_all, lines-times, stamped-Sorted, final, event_times, stamped, time_of_line,
  output_times, Sorted,
}

-- What `get_duration` goes by is the last of the times.
abbrev last_or : ℤ → ℤ → Option ℤ → ℤ
last_or low offset none = low
last_or low offset (some t) = round_time (offset +ℤ t)

final-stamped :
    (low offset : ℤ) (acc : Option ℤ) (es : List Entry)
    → final (last_or low offset acc) (stamped offset (event_times es))
      ≡ last_or low offset (last_output acc es)
final-stamped low offset acc [] = refl
final-stamped low offset acc (stdout ts bytes ∷ es) = final-stamped low offset (some ts) es
final-stamped low offset acc (stdin ts bytes ∷ es) = final-stamped low offset acc es
final-stamped low offset acc (marker ts ∷ es) = final-stamped low offset acc es
final-stamped low offset acc (resize ts size ∷ es) = final-stamped low offset acc es

session-Sorted :
    (host : Host) (clock : IsClock host) (keys : Keys) (rounds : List Selected)
    (record_stdin : Bool)
    → Sorted (pos 0) (event_times (enqueue_all record_stdin (recorded_events host keys rounds)))
unfolding recorded_events
session-Sorted host clock keys rounds record_stdin =
    let s = session_of (record_session host keys rounds) in
    subst (Sorted (pos 0)) (sym (event_times-enqueue_all record_stdin s.entries)) (
      Rising-Sorted (pos 0) (horizon host s) s.entries
        (record_session-Rising host clock keys rounds))

duration-last_or :
    (low d : ℤ) (o : Option ℤ)
    → duration (pos 0) o ≡ returned (float d)
    → (last_or low (pos 0) o ≡ d) × (round_time d ≡ d)
duration-last_or low d none h = cc
duration-last_or low d (some t) h =
    let e : round_time (pos 0 +ℤ t) ≡ d = cc in
    (e, ap round_time (sym e) ∙ round_time_idem (pos 0 +ℤ t) ∙ e)

-- Two recordings, one behind the other, keep the order.
stamped_twice :
    (d : ℤ) (es fs : List Entry)
    → Sorted (pos 0) (event_times es)
    → Sorted (pos 0) (event_times fs)
    → duration (pos 0) (last_output none es) ≡ returned (float d)
    → Sorted
        (round_time (pos 0 +ℤ pos 0))
        (stamped (pos 0) (event_times es) ++ stamped d (event_times fs))
stamped_twice d es fs h k e =
    let low = round_time (pos 0 +ℤ pos 0) in
    let (last, fixed) = duration-last_or low d (last_output none es) e in
    Sorted-append low (stamped (pos 0) (event_times es)) (stamped d (event_times fs))
      (stamped-Sorted (pos 0) (pos 0) (event_times es) h)
      (subst (λ l. Sorted l (stamped d (event_times fs)))
        (sym (final-stamped low (pos 0) none es ∙ last))
        (Sorted-lower d (round_time (d +ℤ pos 0)) (stamped d (event_times fs))
          (subst (λ r. d ≤ℤ r) (ap round_time same) (subst (λ r. d ≤ℤ r) (sym fixed) (omega arith)))
          (stamped-Sorted d (pos 0) (event_times fs) k)))
  where
    same : d ≡ d +ℤ pos 0
    same = omega int_laws

-- The worker has ended, and the times of the output in the file never fall.
abbrev pub IsOrdered : Worker V2.Writer → Type 0
IsOrdered (done w queue) = Sorted (pos 0) (output_times w.file.content)
IsOrdered (failed w queue) = Sorted (pos 0) (output_times w.file.content)
IsOrdered (crashed w) = Sorted (pos 0) (output_times w.file.content)
IsOrdered _ = ⊥

Written-IsOrdered :
    (old new : List Json) (r : Worker V2.Writer)
    → Sorted (pos 0) (output_times (old ++ new))
    → Written old new r
    → IsOrdered r
Written-IsOrdered old new (done w queue) h k =
    subst (λ ls. Sorted (pos 0) (output_times ls)) (sym k.0) h
Written-IsOrdered old new (failed w queue) h (q, (e, (k, (b, c)))) =
    subst (λ ls. Sorted (pos 0) (output_times ls)) (sym c)
      (subst (Sorted (pos 0)) (sym (output_times-append old (take k new))) (
        Sorted-front (pos 0) (output_times old ++ output_times (take k new))
          (output_times (drop k new))
          (subst (Sorted (pos 0)) (ap output_times (whole k) ∙ split k) h)))
  where
    whole : (k : ℕ) → old ++ new ≡ (old ++ take k new) ++ drop k new
    whole k =
        ap (λ (ls : List Json). old ++ ls) (sym (take-append-drop k new))
        ∙ sym (append_assoc old (take k new) (drop k new))

    split :
        (k : ℕ)
        → output_times ((old ++ take k new) ++ drop k new)
          ≡ (output_times old ++ output_times (take k new)) ++ output_times (drop k new)
    split k =
        rw
          (
            output_times-append (old ++ take k new) (drop k new),
            output_times-append old (take k new),
          )
          refl
Written-IsOrdered old new (waiting w) h k = elim k [ ]
Written-IsOrdered old new (draining w) h k = elim k [ ]
Written-IsOrdered old new (crashed w) h k = elim k [ ]

Ended-IsOrdered :
    (disk : Disk) (header : Option Fields) (old new : List Json) (r : Worker V2.Writer)
    → Sorted (pos 0) (output_times (old ++ new))
    → Ended disk header old new r
    → IsOrdered r
Ended-IsOrdered disk header old new r h (inl k) = Written-IsOrdered old new r h k
Ended-IsOrdered disk header old new r h (inr u) =
    Untouched-rule IsOrdered disk header old r (λ w queue c e. front w.file.content c)
      (λ w c e. front w.file.content c) u
  where
    front : (ls : List Json) → ls ≡ old → Sorted (pos 0) (output_times ls)
    front ls e =
        subst (λ m. Sorted (pos 0) (output_times m)) (sym e)
          (Sorted-front (pos 0) (output_times old) (output_times new)
            (subst (Sorted (pos 0)) (output_times-append old new) h))

time_offset-get_duration :
    (loads : Text → Option Json) (append has_size : Bool) (ts : List Text) (d : ℤ)
    → (if append && has_size then get_duration loads ts else returned (int (pos 0)))
      ≡ returned (float d)
    → get_duration loads ts ≡ returned (float d)
time_offset-get_duration loads true true ts d h = h
time_offset-get_duration loads true false ts d h = absurd cc
time_offset-get_duration loads false true ts d h = absurd cc
time_offset-get_duration loads false false ts d h = absurd cc

lines-twice :
    (h : Fields) (d : ℤ) (es fs : List Entry)
    → output_times ((obj h ∷ lines (pos 0) start start es) ++ lines d start start fs)
      ≡ stamped (pos 0) (event_times es) ++ stamped d (event_times fs)
unfolding output_times time_of_line
lines-twice h d es fs =
    rw
      (
        output_times-append (lines (pos 0) start start es) (lines d start start fs),
        lines-times (pos 0) start start es,
        lines-times d start start fs,
      )
      refl

-- The lines `ts` of a file read back as a header of version 2 and the lines of a recording. A
-- second recording is added to the file, on a host of its own; both hosts have clocks that never
-- run backwards and are never read as zero. If the offset that `record` takes from the file is a time, then the worker ends,
-- and the times of the output in the file, that of the first recording and that of the second,
-- whole, up to a failed write or, where the file cannot be opened, missing, never fall.
pub record_with_twice-IsOrdered :
    (loads : Text → Option Json) (h : Fields) (stdin1 stdin2 append : Bool) (host1 host2 : Host)
    (keys1 keys2 : Keys) (rounds1 rounds2 : List Selected) (ts : List Text) (size : ℕ) (d : ℤ)
    (disk : Disk)
    → IsClock host1
    → IsClock host2
    → has_version 2 h ≡ true
    → Holds loads ts (
        obj h
        ∷ lines (pos 0) start start (enqueue_all stdin1 (recorded_events host1 keys1 rounds1)))
    → time_offset_of loads append size ts ≡ returned (float d)
    → IsOrdered (
        record_with disk none
          (obj h
            ∷ lines (pos 0) start start (enqueue_all stdin1 (recorded_events host1 keys1 rounds1)))
          d
          stdin2
          host2
          keys2
          rounds2)
unfolding time_offset_of record_with round_time ◌+ℤ◌
record_with_twice-IsOrdered loads h stdin1 stdin2 append host1 host2 keys1 keys2 rounds1 rounds2 ts
      size d disk clock1 clock2 v held offset =
    let es = enqueue_all stdin1 (recorded_events host1 keys1 rounds1) in
    let fs = enqueue_all stdin2 (recorded_events host2 keys2 rounds2) in
    let e =
      sym (get_duration-held loads (pos 0) h es ts v held)
      ∙ time_offset-get_duration loads append (ltb 0 size) ts d offset in
    Ended-IsOrdered disk none (obj h ∷ lines (pos 0) start start es) (lines d start start fs)
      (run (v2_writer disk none (obj h ∷ lines (pos 0) start start es)) d (queue_of fs))
      (subst (Sorted (pos 0)) (sym (lines-twice h d es fs)) (
        stamped_twice d es fs (session-Sorted host1 clock1 keys1 rounds1 stdin1)
          (session-Sorted host2 clock2 keys2 rounds2 stdin2) e))
      (run-Written disk none (obj h ∷ lines (pos 0) start start es) d fs)
