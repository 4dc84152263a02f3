-- ===== src/Player/Defs.antt =====
-- asciinema/player.py: the outputs, and the variables of `_play`.
use asciinema.Base.{
  ℕ, if◌then◌else◌, Bool, true, String, str_eq, Option, none, some, List, [], ◌∷◌, Bytes, Text,
  bytes_eq, ℤ,
}
use asciinema.Asciicast.Events.{Frame, Feed}
use asciinema.Asciicast.Json.{Json}

-- What goes to stdout: text, or a line of JSON.
pub data Printed : Type 0 where
  raw_text : Text → Printed
  header_line : Json → Printed
  event_line : ℤ → Text → Text → Printed

-- `RawOutput` and `AsciicastOutput`
pub data Output : Type 0 where
  raw_output : Text → Output
  asciicast_output : Option Text → Output

abbrev pub code_o : Text
code_o = b'o' ∷ []

abbrev pub code_m : Text
code_m = b'm' ∷ []

-- `stream or "o"`
abbrev pub stream_or_o : Option Text → Text
stream_or_o none = code_o
stream_or_o (some []) = code_o
stream_or_o (some (c ∷ cs)) = c ∷ cs

unfoldable pub make_output : String → Option Text → Output
make_output out_fmt stream =
    if str_eq out_fmt "raw" then raw_output (stream_or_o stream) else asciicast_output stream

unfoldable pub output_start : Output → Json → List Printed
output_start (raw_output stream) header = []
output_start (asciicast_output stream) header = header_line header ∷ []

-- `self.stream in [None, event_type]`
unfoldable pub takes : Output → Text → Bool
takes (raw_output stream) code = bytes_eq code stream
takes (asciicast_output none) code = true
takes (asciicast_output (some stream)) code = bytes_eq stream code

unfoldable pub print_frame : Output → Frame → Printed
print_frame (raw_output stream) f = raw_text f.text
print_frame (asciicast_output stream) f = event_line f.time f.code f.text

unfoldable pub output_write : Output → Frame → List Printed
unfolding takes print_frame
output_write output f = if takes output f.code then print_frame output f ∷ [] else []

-- `key_bindings`
pub record Bindings : Type 0 where
  pub pause : Option Bytes
  pub step : Option Bytes
  pub next_marker : Option Bytes

-- The arguments of `_play` that its loops use. `has_stdin` is `stdin is not None`.
pub record Options : Type 0 where
  pub has_stdin : Bool
  pub bindings : Bindings
  pub output : Output
  pub pause_on_markers : Bool

-- The n-th reading of the clock, and what the n-th wait for a key gives.
pub record Host : Type 0 where
  pub now : ℕ → ℤ
  pub key : ℕ → Bytes

-- Which of the `while` loops runs.
pub data Loop : Type 0 where
  outer paused playing : Loop

-- `current` is `time_, event_type, text`, and `none` if `time_` is `None`.
pub record Playback : Type 0 where
  pub loop : Loop
  pub current : Option Frame
  pub rest : Feed
  pub start_time : ℤ
  pub pause_elapsed_time : Option ℤ
  pub ctrl_c : Bool
  pub clock_reads : ℕ
  pub key_reads : ℕ
  pub stdout : List Printed

-- `finished` and `interrupted` are the two ways that `_play` ends by itself; `raised` is an
-- exception out of the recording, or a failed assertion.
pub data Outcome : Type 0 where
  running : Playback → Outcome
  finished interrupted raised : Playback → Outcome

abbrev pub playback_of : Outcome → Playback
playback_of (running s) = s
playback_of (finished s) = s
playback_of (interrupted s) = s
playback_of (raised s) = s

abbrev pub is_marker : Frame → Bool
is_marker f = bytes_eq f.code code_m
