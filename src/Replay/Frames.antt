-- ===== src/Replay/Frames.antt =====
-- The frames that the readers make of the lines of asciinema/recorder.py.
use asciinema.Base.{
  true, false, Option, none, some, List, [], ◌∷◌, ◌++◌, ℤ, ◌+ℤ◌, ◌≡◌, refl, ap, ◌∙◌, Text,
}
use asciinema.Pty.Defs.{Entry, stdin, stdout, marker, resize}
use asciinema.Asciicast.Json.{Json, Fields, obj, get_field}
use asciinema.Asciicast.Events.{Frame}
use asciinema.Asciicast.Frames.{frame_of, yield_or_stop, feed_from, feed_of, recording_events}
use asciinema.Asciicast.Opening.{Recording, v2, open_recording, or_v1}
use asciinema.Asciicast.V1 as V1
use asciinema.Asciicast.V2.Writer.{event_json, round_time, decimal}
use asciinema.Asciicast.V2.Reader as V2
use asciinema.Asciicast.V2.Reader.{
  Read, returned, has_version, from_first_value, build_from_header_and_file, events_of, yield_event,
}
use asciinema.Utf8.{Decoder, start, decode}
use asciinema.Recorder.Lines.{line, lines, next_in, next_out}
use asciinema.Recorder.Duration.{Holds, output_lines, events_of-lines, open_from_file-obj}

abbrev frame : ℤ → Text → Text → Frame
frame t code text = record { time = round_time t; code = code; text = text }

-- The frame of an event, and those of all events, given the decoders of input and output.
unfoldable pub event_frame : ℤ → Decoder → Decoder → Entry → Frame
event_frame offset i o (stdout ts bytes) = frame (offset +ℤ ts) (b'o' ∷ []) (decode o bytes).text
event_frame offset i o (stdin ts bytes) = frame (offset +ℤ ts) (b'i' ∷ []) (decode i bytes).text
event_frame offset i o (marker ts) = frame (offset +ℤ ts) (b'm' ∷ []) []
event_frame offset i o (resize ts size) =
    frame (offset +ℤ ts) (b'r' ∷ []) (decimal size.cols ++ b'x' ∷ decimal size.rows)

unfoldable pub event_frames : ℤ → Decoder → Decoder → List Entry → List Frame
unfolding event_frame next_in next_out
event_frames offset i o [] = []
event_frames offset i o (e ∷ es) =
    event_frame offset i o e ∷ event_frames offset (next_in i e) (next_out o e) es

unfoldable pub output_frames : ℤ → Decoder → List Entry → List Frame
unfolding event_frame next_out
output_frames offset o [] = []
output_frames offset o (stdout ts bytes ∷ es) =
    event_frame offset start o (stdout ts bytes)
    ∷ output_frames offset (next_out o (stdout ts bytes)) es
output_frames offset o (_ ∷ es) = output_frames offset o es

frame_of-line :
    (offset : ℤ) (i o : Decoder) (e : Entry)
    → frame_of (line offset i o e) ≡ some (event_frame offset i o e)
unfolding frame_of line event_json event_frame
frame_of-line offset i o (stdout ts bytes) = refl
frame_of-line offset i o (stdin ts bytes) = refl
frame_of-line offset i o (marker ts) = refl
frame_of-line offset i o (resize ts size) = refl

feed_from-lines :
    (offset : ℤ) (i o : Decoder) (es : List Entry)
    → feed_from (lines offset i o es) none
      ≡ record { frames = event_frames offset i o es; raises = false }
unfolding feed_from lines event_frames yield_or_stop
feed_from-lines offset i o [] = refl
feed_from-lines offset i o (e ∷ es) =
    rw (frame_of-line offset i o e, feed_from-lines offset (next_in i e) (next_out o e) es) refl

feed_from-output_lines :
    (offset : ℤ) (o : Decoder) (es : List Entry)
    → feed_from (output_lines offset o es) none
      ≡ record { frames = output_frames offset o es; raises = false }
unfolding feed_from output_lines output_frames yield_or_stop
feed_from-output_lines offset o [] = refl
feed_from-output_lines offset o (stdout ts bytes ∷ es) =
    rw
      (
        frame_of-line offset start o (stdout ts bytes),
        feed_from-output_lines offset (next_out o (stdout ts bytes)) es,
      )
      refl
feed_from-output_lines offset o (stdin ts bytes ∷ es) = feed_from-output_lines offset o es
feed_from-output_lines offset o (marker ts ∷ es) = feed_from-output_lines offset o es
feed_from-output_lines offset o (resize ts size ∷ es) = feed_from-output_lines offset o es

module _ (loads : Text → Option Json) where
  events_of-all :
      (offset : ℤ) (i o : Decoder) (es : List Entry) (ts : List Text)
      → Holds loads ts (lines offset i o es)
      → events_of loads none ts ≡ record { items = lines offset i o es; raises = none }
  unfolding lines events_of yield_event
  events_of-all offset i o [] [] h = refl
  events_of-all offset i o [] (t ∷ ts) h = elim h [ ]
  events_of-all offset i o (e ∷ es) [] h = elim h [ ]
  events_of-all offset i o (e ∷ es) (t ∷ ts) (h, (k, l)) =
      rw (k, h, events_of-all offset (next_in i e) (next_out o e) es ts l) refl

  -- The file of a recording, opened.
  abbrev pub recorded : Fields → List Text → Recording
  recorded h ts =
      v2 (record { file = ts; v2_header = h; idle_time_limit = get_field "idle_time_limit" h })

  pub open_recorded :
      (h : Fields) (t : Text) (ts : List Text)
      → has_version 2 h ≡ true
      → loads t ≡ some (obj h)
      → open_recording loads t ts ≡ returned (recorded h ts)
  unfolding open_recording or_v1 build_from_header_and_file
  open_recorded h t ts v e =
      ap (λ r. or_v1 r (V1.open_from_file loads t ts)) (open_from_file-obj loads h t ts v e)

  module _ (h : Fields) (offset : ℤ) (es : List Entry) (ts : List Text)
      (held : Holds loads ts (lines offset start start es)) where
    pub recorded_events-all :
        recording_events loads none (recorded h ts)
        ≡ record { frames = event_frames offset start start es; raises = false }
    unfolding recording_events feed_of V2.events
    recorded_events-all =
        ap feed_of (events_of-all offset start start es ts held)
        ∙ feed_from-lines offset start start es

    pub recorded_events-output :
        recording_events loads (some (b'o' ∷ [])) (recorded h ts)
        ≡ record { frames = output_frames offset start es; raises = false }
    unfolding recording_events feed_of V2.events
    recorded_events-output =
        ap feed_of (events_of-lines loads offset start start es ts held)
        ∙ feed_from-output_lines offset start es
