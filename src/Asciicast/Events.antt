-- ===== src/Asciicast/Events.antt =====
-- asciinema/asciicast/events.py: the passes over the frames of a recording.
-- Times are whole nanoseconds. A generator is the list of its frames, with a mark if it raises
-- behind the last of them.
pub mod Laws
mod Tests
use asciinema.Base.{
  truthy_time, ℕ, suc, ◌*◌, ◌/◌, ◌==◌, if◌then◌else◌, Bool, true, Option, none, some,
}
use asciinema.Base.{List, [], ◌∷◌, map, Text, ℤ, pos, negsuc, ◌+ℤ◌, ◌-ℤ◌, sub_ℕ, min_ℤ}

pub record Frame : Type 0 where
  pub time : ℤ
  pub code : Text
  pub text : Text

pub record Feed : Type 0 where
  pub frames : List Frame
  pub raises : Bool

-- A speed is a fraction, `num / den` with `0 < den`.
pub record Speed : Type 0 where
  pub num : ℤ
  pub den : ℕ

unfoldable pub to_relative_from : ℤ → List Frame → List Frame
to_relative_from prev_time [] = []
to_relative_from prev_time (frame ∷ frames) =
    record frame { time = frame.time -ℤ prev_time } ∷ to_relative_from frame.time frames

unfoldable pub to_relative_time : Feed → Feed
unfolding to_relative_from
to_relative_time events = record events { frames = to_relative_from (pos 0) events.frames }

unfoldable pub to_absolute_from : ℤ → List Frame → List Frame
to_absolute_from time [] = []
to_absolute_from time (frame ∷ frames) =
    let now = time +ℤ frame.time in record frame { time = now } ∷ to_absolute_from now frames

unfoldable pub to_absolute_time : Feed → Feed
unfolding to_absolute_from
to_absolute_time events = record events { frames = to_absolute_from (pos 0) events.frames }

unfoldable pub cap_frame : ℤ → Frame → Frame
cap_frame limit frame = record frame { time = min_ℤ frame.time limit }

unfoldable pub cap_relative_time : Feed → Option ℤ → Feed
unfolding cap_frame
cap_relative_time events none = events
cap_relative_time events (some time_limit) =
    if truthy_time (some time_limit)
    then record events { frames = map (cap_frame time_limit) events.frames }
    else events

-- Division towards minus infinity, to a whole nanosecond.
unfoldable pub div_floor : ℤ → ℕ → ℤ
div_floor (pos n) d = pos (n / d)
div_floor (negsuc n) d = negsuc (n / d)

unfoldable pub times : ℤ → ℕ → ℤ
times (pos n) d = pos (n * d)
times (negsuc n) d = sub_ℕ 0 (suc n * d)

unfoldable pub divide_time : ℤ → Speed → ℤ
unfolding div_floor times
divide_time t v = elim v.num [
  | pos n ↦ div_floor (times t v.den) n
  | negsuc n ↦ div_floor (times (pos 0 -ℤ t) v.den) (suc n)
]

-- A speed of zero raises `ZeroDivisionError` at the first frame.
unfoldable pub is_zero_speed : Speed → Bool
is_zero_speed v = elim v.num [ pos n ↦ n == 0 | negsuc n ↦ Bool.false ]

unfoldable pub divide_frame : Speed → Frame → Frame
unfolding divide_time
divide_frame v frame = record frame { time = divide_time frame.time v }

unfoldable pub adjust_frames : Bool → Feed → Speed → Feed
unfolding divide_frame
adjust_frames true events v = elim events.frames [
  | [] ↦ events
  | frame ∷ frames ↦ record { frames = []; raises = true }
]
adjust_frames Bool.false events v = record events { frames = map (divide_frame v) events.frames }

unfoldable pub adjust_speed : Feed → Speed → Feed
unfolding adjust_frames is_zero_speed
adjust_speed events v = adjust_frames (is_zero_speed v) events v

-- The passes that cut idle time, as `_play` of asciinema/player.py chains them.
unfoldable pub compress : Feed → Option ℤ → Feed
unfolding to_absolute_time cap_relative_time to_relative_time
compress events limit = to_absolute_time (cap_relative_time (to_relative_time events) limit)
