-- ===== src/Asciicast/Events/Tests.antt =====
-- The theorems about asciinema/asciicast/events.py at a recording.
use asciinema.Base.{ℕ, ◌≡◌, arith, false, some, [], ◌∷◌, pos}
use asciinema.Asciicast.Events.{Frame, Feed, compress, to_relative_time, to_absolute_time}
use asciinema.Asciicast.Events.Laws.{Spaced, compress-Spaced, to_absolute-to_relative}

abbrev at : ℕ → Frame
at t = record { time = pos t; code = b'o' ∷ []; text = b'x' ∷ [] }

abbrev events : Feed
events = record { frames = at 1 ∷ at 3 ∷ at 9 ∷ []; raises = false }

compress-Spaced_example : Spaced (pos 2) (pos 0) (compress events (some (pos 2))).frames
compress-Spaced_example = compress-Spaced events (pos 2) (omega arith) (omega arith)

to_absolute-to_relative_example : to_absolute_time (to_relative_time events) ≡ events
to_absolute-to_relative_example = to_absolute-to_relative events
