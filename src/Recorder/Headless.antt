-- ===== src/Recorder/Headless.antt =====
-- asciinema/recorder.py and asciinema/asciicast/v2.py: what `--append` makes of a file that exists
-- and is empty.
use asciinema.Base.{Option, none, some, List, [], ◌∷◌, ℤ, ◌≡◌, refl, ap, ◌∙◌, Text}
use asciinema.Pty.Defs.{Entry, stdin, stdout, marker, resize}
use asciinema.Asciicast.Json.{Json}
use asciinema.Asciicast.V2.Writer.{event_json}
use asciinema.Asciicast.V2.Reader.{
  raised, attribute_error, get_duration, duration_of, open_from_file, from_first_value,
}
use asciinema.FileWriter.{Disk}
use asciinema.Utf8.{Decoder, start}
use asciinema.Recorder.Worker.{run, v2_writer}
use asciinema.Recorder.Lines.{line, lines, run-Written, queue_of}
use asciinema.Recorder.Duration.{Holds, HasDuration, Written-Holding}

from_first_value-line :
    (offset : ℤ) (i o : Decoder) (e : Entry) (file : List Text)
    → from_first_value (some (line offset i o e)) file ≡ raised attribute_error
unfolding from_first_value line event_json
from_first_value-line offset i o (stdout ts bytes) file = refl
from_first_value-line offset i o (stdin ts bytes) file = refl
from_first_value-line offset i o (marker ts) file = refl
from_first_value-line offset i o (resize ts size) file = refl

module _ (loads : Text → Option Json) where
  get_duration-headless :
      (offset : ℤ) (e : Entry) (es : List Entry) (ts : List Text)
      → Holds loads ts (lines offset start start (e ∷ es))
      → get_duration loads ts ≡ raised attribute_error
  unfolding get_duration duration_of open_from_file lines
  get_duration-headless offset e es [] held = elim held [ ]
  get_duration-headless offset e es (t ∷ ts) (h, held) =
      ap (λ o. duration_of loads (from_first_value o ts)) h
      ∙ ap (duration_of loads) (from_first_value-line offset start start e ts)

-- At least one event is appended to an empty file, whose lines then read back as the lines of the
-- events. The file is no recording: it has no header, and `get_duration` of it raises an
-- `AttributeError`, since its first line is a list. Or a write has failed, and that was reported; or
-- nothing was written, since the file could not be opened.
pub append_to_empty :
    (loads : Text → Option Json) (disk : Disk) (offset : ℤ) (e : Entry) (es : List Entry)
    (ts : List Text)
    → Holds loads ts (lines offset start start (e ∷ es))
    → HasDuration loads ts
        (raised attribute_error)
        (run (v2_writer disk none []) offset (queue_of (e ∷ es)))
append_to_empty loads disk offset e es ts held =
    Written-Holding loads (get_duration loads ts ≡ raised attribute_error)
      (lines offset start start (e ∷ es)) ts disk none
      (run (v2_writer disk none []) offset (queue_of (e ∷ es))) held
      (run-Written disk none [] offset (e ∷ es)) (get_duration-headless loads offset e es ts held)
