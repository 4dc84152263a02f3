-- ===== src/Asciicast/Frames.antt =====
-- The events of a recording as frames: what the unpacking `time, type_, data = frame` of
-- asciinema/asciicast/events.py and the loop of asciinema/commands/cat.py get. A frame is a number
-- and two texts; what is neither counts as an exception where it comes up.
use asciinema.Base.{true, false, Option, none, some, List, [], ◌∷◌, Text, ℤ}
use asciinema.Asciicast.Json.{Json, arr, str, obj, cons, nil, time_of}
use asciinema.Asciicast.Events.{Frame, Feed}
use asciinema.Asciicast.V1 as V1
use asciinema.Asciicast.V2.Reader as V2
use asciinema.Asciicast.V2.Reader.{Raised, Stream}
use asciinema.Asciicast.Opening.{Recording, v1, v2}

unfoldable pub timed_frame : Option ℤ → Text → Text → Option Frame
timed_frame none code text = none
timed_frame (some time) code text = some (record { time = time; code = code; text = text })

unfoldable pub frame_of : Json → Option Frame
unfolding timed_frame time_of
frame_of (arr (cons time (cons (str code) (cons (str text) nil)))) =
    timed_frame (time_of time) code text
frame_of _ = none

unfoldable pub yield_or_stop : Option Frame → Feed → Feed
yield_or_stop none rest = record { frames = []; raises = true }
yield_or_stop (some frame) rest = record rest { frames = frame ∷ rest.frames }

unfoldable pub ends_with : Option Raised → Feed
ends_with none = record { frames = []; raises = false }
ends_with (some e) = record { frames = []; raises = true }

unfoldable pub feed_from : List Json → Option Raised → Feed
unfolding frame_of yield_or_stop ends_with
feed_from [] raises = ends_with raises
feed_from (item ∷ items) raises = yield_or_stop (frame_of item) (feed_from items raises)

unfoldable pub feed_of : Stream → Feed
unfolding feed_from
feed_of stream = feed_from stream.items stream.raises

-- `a.events(type_)`
unfoldable pub recording_events : (Text → Option Json) → Option Text → Recording → Feed
unfolding feed_of V1.events V2.events
recording_events loads type_ (v1 a) = V1.events type_ a
recording_events loads type_ (v2 a) = feed_of (V2.events loads type_ a)

-- `a.v2_header`
unfoldable pub recording_header : Recording → Json
unfolding V1.header_of
recording_header (v1 a) = obj (V1.header_of a.attrs)
recording_header (v2 a) = obj a.v2_header

-- `a.idle_time_limit`, which version 1 does not store.
unfoldable pub recording_limit : Recording → Option Json
recording_limit (v1 a) = none
recording_limit (v2 a) = a.idle_time_limit
