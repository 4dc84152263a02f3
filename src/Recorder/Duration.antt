-- ===== src/Recorder/Duration.antt =====
-- asciinema/asciicast/v2.py, `get_duration`, on a file that asciinema/recorder.py has written: the
-- time behind which a second recording is appended.
use mathlib.Core.Path.{subst}
use asciinema.Base.{
  inl, inr, true, false, Option, none, some, List, [], ◌∷◌, ℤ, ◌+ℤ◌, ◌≡◌, refl, sym, ap, ◌∙◌, Text,
  bytes_eq, last_of,
}
use asciinema.Pty.Defs.{Entry, stdin, stdout, marker, resize}
use asciinema.Asciicast.Json.{Json, float, obj, Fields}
use asciinema.Asciicast.V2.Writer as V2
use asciinema.Asciicast.V2.Writer.{event_json, round_time}
use asciinema.Asciicast.V2.Reader.{
  Read, returned, raised, type_error, has_version, get_duration, duration_of, open_from_file,
  from_first_value, build_from_header_and_file, events, events_of, duration_of_events, time_of_last,
  first_item, second_item, is_text, yield_event, yield_matching,
}
use asciinema.FileWriter.{Disk}
use asciinema.Utf8.{Decoder, start}
use asciinema.Recorder.Worker.{Worker, done, failed, waiting, draining, crashed, run, v2_writer}
use asciinema.Recorder.Lines.{
  line, lines, next_in, next_out, run-Written, queue_of, Written, Ended, Untouched-rule,
}

module _ (loads : Text → Option Json) where
  -- The lines of a file, none of them blank, and the values that they hold.
  abbrev pub Holds : List Text → List Json → Type 0
  Holds [] [] = Unit
  Holds (t ∷ ts) (j ∷ js) = (loads t ≡ some j) × ((bytes_eq t (b'\n' ∷ []) ≡ false) × Holds ts js)
  Holds _ _ = ⊥

-- The time of the last output, if there is one.
abbrev pub last_output : Option ℤ → List Entry → Option ℤ
last_output t [] = t
last_output t (stdout ts bytes ∷ es) = last_output (some ts) es
last_output t (_ ∷ es) = last_output t es

abbrev pub duration : ℤ → Option ℤ → Read Json
duration offset none = raised type_error
duration offset (some ts) = returned (float (round_time (offset +ℤ ts)))

unfoldable pub output_lines : ℤ → Decoder → List Entry → List Json
unfolding line next_out
output_lines offset o [] = []
output_lines offset o (stdout ts bytes ∷ es) =
    line offset start o (stdout ts bytes) ∷ output_lines offset (next_out o (stdout ts bytes)) es
output_lines offset o (_ ∷ es) = output_lines offset o es

last-output_lines :
    (offset : ℤ) (o : Decoder) (es : List Entry) (acc : Option Json) (t : Option ℤ)
    → time_of_last acc ≡ duration offset t
    → time_of_last (last_of acc (output_lines offset o es)) ≡ duration offset (last_output t es)
unfolding output_lines line event_json time_of_last first_item
last-output_lines offset o [] acc t h = h
last-output_lines offset o (stdout ts bytes ∷ es) acc t h =
    last-output_lines offset (next_out o (stdout ts bytes)) es
      (some (line offset start o (stdout ts bytes))) (some ts) refl
last-output_lines offset o (stdin ts bytes ∷ es) acc t h = last-output_lines offset o es acc t h
last-output_lines offset o (marker ts ∷ es) acc t h = last-output_lines offset o es acc t h
last-output_lines offset o (resize ts size ∷ es) acc t h = last-output_lines offset o es acc t h

module _ (loads : Text → Option Json) where
  events_of-line :
      (type_ t : Text) (ts : List Text) (j : Json)
      → loads t ≡ some j
      → bytes_eq t (b'\n' ∷ []) ≡ false
      → events_of loads (some type_) (t ∷ ts)
        ≡ yield_matching type_ j (events_of loads (some type_) ts)
  unfolding events_of
  events_of-line type_ t ts j h k = rw (k, h) refl

  pub events_of-lines :
      (offset : ℤ) (i o : Decoder) (es : List Entry) (ts : List Text)
      → Holds loads ts (lines offset i o es)
      → events_of loads (some (b'o' ∷ [])) ts
        ≡ record { items = output_lines offset o es; raises = none }
  unfolding lines line next_in next_out output_lines event_json yield_matching yield_event
      second_item is_text bytes_eq events_of
  events_of-lines offset i o [] [] h = refl
  events_of-lines offset i o [] (t ∷ ts) h = elim h [ ]
  events_of-lines offset i o (stdout s bytes ∷ es) [] h = elim h [ ]
  events_of-lines offset i o (stdin s bytes ∷ es) [] h = elim h [ ]
  events_of-lines offset i o (marker s ∷ es) [] h = elim h [ ]
  events_of-lines offset i o (resize s size ∷ es) [] h = elim h [ ]
  events_of-lines offset i o (stdout s bytes ∷ es) (t ∷ ts) (h, (k, l)) =
      events_of-line (b'o' ∷ []) t ts (line offset i o (stdout s bytes)) h k
      ∙ ap (yield_event (line offset i o (stdout s bytes)))
          (events_of-lines offset i (next_out o (stdout s bytes)) es ts l)
  events_of-lines offset i o (stdin s bytes ∷ es) (t ∷ ts) (h, (k, l)) =
      events_of-line (b'o' ∷ []) t ts (line offset i o (stdin s bytes)) h k
      ∙ events_of-lines offset (next_in i (stdin s bytes)) o es ts l
  events_of-lines offset i o (marker s ∷ es) (t ∷ ts) (h, (k, l)) =
      events_of-line (b'o' ∷ []) t ts (line offset i o (marker s)) h k
      ∙ events_of-lines offset i o es ts l
  events_of-lines offset i o (resize s size ∷ es) (t ∷ ts) (h, (k, l)) =
      events_of-line (b'o' ∷ []) t ts (line offset i o (resize s size)) h k
      ∙ events_of-lines offset i o es ts l

  pub open_from_file-obj :
      (h : Fields) (t : Text) (ts : List Text)
      → has_version 2 h ≡ true
      → loads t ≡ some (obj h)
      → open_from_file loads t ts ≡ returned (build_from_header_and_file h ts)
  unfolding open_from_file from_first_value
  open_from_file-obj h t ts v e = ap (λ r. from_first_value r ts) e ∙ rw v refl

  get_duration-lines :
      (offset : ℤ) (h : Fields) (es : List Entry) (t : Text) (ts : List Text)
      → has_version 2 h ≡ true
      → loads t ≡ some (obj h)
      → Holds loads ts (lines offset start start es)
      → get_duration loads (t ∷ ts) ≡ duration offset (last_output none es)
  unfolding get_duration duration_of build_from_header_and_file events duration_of_events
  get_duration-lines offset h es t ts v e k =
      ap (duration_of loads) (open_from_file-obj h t ts v e)
      ∙ ap duration_of_events (events_of-lines offset start start es ts k)
      ∙ last-output_lines offset start es none none refl

  pub get_duration-held :
      (offset : ℤ) (h : Fields) (es : List Entry) (ts : List Text)
      → has_version 2 h ≡ true
      → Holds loads ts (obj h ∷ lines offset start start es)
      → get_duration loads ts ≡ duration offset (last_output none es)
  get_duration-held offset h es [] v k = elim k [ ]
  get_duration-held offset h es (t ∷ ts) v (e, (b, k)) = get_duration-lines offset h es t ts v e k

  -- The worker has ended; the lines of the file that it has written whole are these, and then `P`
  -- holds. Or a write has failed, and that was reported; or nothing was written, since the file could
  -- not be opened or the header not be encoded.
  abbrev pub Holding : List Text → Type 0 → Worker V2.Writer → Type 0
  Holding ts P (done w queue) = Holds loads ts w.file.content × P
  Holding ts P (failed w queue) = (w.file.errors ≡ []) → w.file.content ≡ []
  Holding ts P (crashed w) = w.file.content ≡ []
  Holding ts P _ = ⊥

  written-Holding :
      (P : Type 0) (new : List Json) (ts : List Text) (r : Worker V2.Writer)
      → Holds loads ts new
      → Written [] new r
      → P
      → Holding ts P r
  written-Holding P new ts (done w queue) held (c, k) p = (subst (Holds loads ts) (sym c) held, p)
  written-Holding P new ts (failed w queue) held (q, (e, k)) p = λ none. absurd cc
  written-Holding P new ts (waiting w) held k p = elim k [ ]
  written-Holding P new ts (draining w) held k p = elim k [ ]
  written-Holding P new ts (crashed w) held k p = elim k [ ]

  pub Written-Holding :
      (P : Type 0) (new : List Json) (ts : List Text) (disk : Disk) (header : Option Fields)
      (r : Worker V2.Writer)
      → Holds loads ts new
      → Ended disk header [] new r
      → P
      → Holding ts P r
  Written-Holding P new ts disk header r held (inl k) p = written-Holding P new ts r held k p
  Written-Holding P new ts disk header r held (inr u) p =
      Untouched-rule (Holding ts P) disk header [] r (λ w queue c e none. c) (λ w c e. c) u

  abbrev pub HasDuration : List Text → Read Json → Worker V2.Writer → Type 0
  HasDuration ts d r = Holding ts (get_duration loads ts ≡ d) r

-- If the lines `ts` read back as a header of version 2 and the lines of the events, then the worker
-- ends with a new file that holds them, of which `get_duration` gives the time of the last output,
-- with the offset added and rounded to microseconds, whatever input, markers and resizes follow it;
-- without any output it raises a `TypeError`. Or a write has failed, and that was reported; or
-- nothing was written, since the file could not be opened or the header not be encoded.
pub run-HasDuration :
    (loads : Text → Option Json) (disk : Disk) (h : Fields) (offset : ℤ) (es : List Entry)
    (ts : List Text)
    → has_version 2 h ≡ true
    → Holds loads ts (obj h ∷ lines offset start start es)
    → HasDuration loads ts
        (duration offset (last_output none es))
        (run (v2_writer disk (some h) []) offset (queue_of es))
run-HasDuration loads disk h offset es ts v held =
    Written-Holding loads (get_duration loads ts ≡ duration offset (last_output none es))
      (obj h ∷ lines offset start start es) ts disk (some h)
      (run (v2_writer disk (some h) []) offset (queue_of es)) held
      (run-Written disk (some h) [] offset es) (get_duration-held loads offset h es ts v held)
