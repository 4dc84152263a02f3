-- ===== src/Commands/Play.antt =====
-- asciinema/commands/play.py, over asciinema/player.py.
use asciinema.Base.{
  ℕ, if◌then◌else◌, Bool, true, false, String, Option, none, some, List, [], ◌∷◌, Text, ℤ,
  truthy_time,
}
use asciinema.Asciicast.Json.{Json, null, int, float, str, arr, obj, nil, end, time_of}
use asciinema.Asciicast.Events.{Feed, Speed}
use asciinema.Asciicast.Opening.{Recording}
use asciinema.Asciicast.Frames.{recording_events, recording_header, recording_limit}
use asciinema.Asciicast.V2.Reader.{Read, returned, raised, load_error}
use asciinema.Player.Defs.{Bindings, Host, Outcome, running, finished, interrupted}
use asciinema.Player.Loops.{Request}
use asciinema.Player.Loops as Loops

pub record Options : Type 0 where
  pub idle_time_limit : Option ℤ
  pub speed : Speed
  pub loop : Bool
  pub out_fmt : String
  pub stream : Option Text
  pub pause_on_markers : Bool
  pub bindings : Bindings

-- The limit that a recording stores; what is true of it and no number makes `min` raise an exception
-- at the first frame.
pub data Limit : Type 0 where
  limit : Option ℤ → Limit
  no_number : Limit

unfoldable pub limit_of : Option Json → Limit
unfolding time_of
limit_of none = limit none
limit_of (some null) = limit none
limit_of (some (Json.bool false)) = limit none
limit_of (some (Json.bool true)) = limit (time_of (int (ℤ.pos 1)))
limit_of (some (int n)) = limit (time_of (int n))
limit_of (some (float t)) = limit (some t)
limit_of (some (str [])) = limit none
limit_of (some (arr nil)) = limit none
limit_of (some (obj end)) = limit none
limit_of (some _) = no_number

unfoldable pub stopped_at_first : Feed → Feed
stopped_at_first events = elim events.frames [
  | [] ↦ events
  | frame ∷ frames ↦ record { frames = []; raises = true }
]

abbrev pub request : Options → Json → Feed → Option ℤ → Request
request o header events stored = record {
  header = header;
  events = events;
  stored_limit = stored;
  idle_time_limit = o.idle_time_limit;
  speed = o.speed;
  bindings = o.bindings;
  out_fmt = o.out_fmt;
  stream = o.stream;
  pause_on_markers = o.pause_on_markers;
}

unfoldable pub limited : Options → Json → Feed → Limit → Request
unfolding stopped_at_first
limited o header events (limit stored) = request o header events stored
limited o header events no_number =
    if truthy_time o.idle_time_limit
    then request o header events none
    else request o header (stopped_at_first events) none

-- `self.player.play(a, …)`
unfoldable pub request_of : (Text → Option Json) → Options → Recording → Request
unfolding limited limit_of recording_events recording_header recording_limit
request_of loads o recording =
    limited o (recording_header recording) (recording_events loads none recording)
      (limit_of (recording_limit recording))

-- `play` returns a status, an exception leaves it, or it plays on.
pub data Played : Type 0 where
  status : ℕ → Played
  escaped : Played
  unfinished : Played

unfoldable pub played : Outcome → Played
played (running s) = unfinished
played (finished s) = status 0
played (interrupted s) = status 1
played (Outcome.raised s) = escaped

unfoldable pub play : (Text → Option Json) → Options → Bool → Host → ℕ → Read Recording → Played
unfolding played request_of Loops.play
play loads o tty host fuel (raised load_error) = status 1
play loads o tty host fuel (raised e) = escaped
play loads o tty host fuel (returned recording) =
    played (Loops.play (request_of loads o recording) tty host fuel)

-- The loop of `execute`, for as many calls of `play` as there are results.
unfoldable pub play_again : Played → List Played → Played
play_again (status ℕ.zero) [] = unfinished
play_again (status ℕ.zero) (p ∷ ps) = play_again p ps
play_again other ps = other

unfoldable pub execute : Options → Played → List Played → Played
unfolding play_again
execute o first more = if o.loop then play_again first more else first
