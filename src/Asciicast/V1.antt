-- ===== src/Asciicast/V1.antt =====
-- asciinema/asciicast/v1.py: a recording that is one JSON value, with delays in place of times.
use asciinema.Base.{
  if◌then◌else◌, Bool, true, false, ◌&&◌, ◌||◌, not, String, str_eq, Option, none, some, List, [],
  ◌∷◌, ◌++◌, Text, bytes_eq, ◌≡◌, ℤ,
}
use asciinema.Asciicast.Json.{
  Json, null, arr, str, obj, Items, nil, cons, Fields, end, field, get_field, time_of,
}
use asciinema.Asciicast.Events.{Feed, to_absolute_time, to_relative_time}
use asciinema.Asciicast.Events.Laws.{to_relative-to_absolute}
use asciinema.Asciicast.V2.Reader.{Read, returned, raised, load_error, attribute_error, has_version}

pub record Asciicast : Type 0 where
  pub attrs : Fields

unfoldable is_header_key : String → Bool
is_header_key k =
    str_eq k "width"
    || str_eq k "height"
    || str_eq k "duration"
    || str_eq k "command"
    || str_eq k "title"
    || str_eq k "env"

unfoldable is_null : Json → Bool
is_null null = true
is_null _ = false

-- `v2_header`
unfoldable pub header_of : Fields → Fields
unfolding is_header_key is_null
header_of end = end
header_of (field k v attrs) =
    let rest = header_of attrs in
    if is_header_key k && not (is_null v) then field k v rest else rest

abbrev stopped : Feed
stopped = record { frames = []; raises = true }

abbrev finished : Feed
finished = record { frames = []; raises = false }

unfoldable pub yield_frame : Option ℤ → Text → Feed → Feed
yield_frame none content rest = stopped
yield_frame (some time) content rest = record rest {
  frames = record { time = time; code = b'o' ∷ []; text = content } ∷ rest.frames;
}

-- The loop of `__stdout_events`. An item that is not a time and a text raises an exception: here,
-- where the passes add its time, or where its data is shown.
unfoldable pub stdout_items : Items → Feed
unfolding yield_frame time_of
stdout_items nil = finished
stdout_items (cons (arr (cons time (cons (str content) nil))) items) =
    yield_frame (time_of time) content (stdout_items items)
stdout_items (cons _ items) = stopped

-- `self.__attrs["stdout"]` and what can be iterated.
unfoldable pub stdout_of : Option Json → Feed
unfolding stdout_items
stdout_of (some (arr items)) = stdout_items items
stdout_of (some (str [])) = finished
stdout_of (some (obj end)) = finished
stdout_of _ = stopped

unfoldable pub stdout_events : Asciicast → Feed
unfolding stdout_of get_field
stdout_events a = stdout_of (get_field "stdout" a.attrs)

-- `type_ in [None, "o"]`
unfoldable pub wants_output : Option Text → Bool
unfolding bytes_eq
wants_output none = true
wants_output (some type_) = bytes_eq type_ (b'o' ∷ [])

unfoldable pub events : Option Text → Asciicast → Feed
unfolding wants_output stdout_events to_absolute_time
events type_ a = if wants_output type_ then to_absolute_time (stdout_events a) else finished

unfoldable pub from_value : Option Json → Read Asciicast
unfolding has_version
from_value none = raised load_error
from_value (some (obj attrs)) =
    if has_version 1 attrs then returned (record { attrs = attrs }) else raised load_error
from_value (some _) = raised attribute_error

-- `file.read()` of the lines that are left.
unfoldable pub read_lines : List Text → Text
read_lines [] = []
read_lines (line ∷ lines) = line ++ read_lines lines

unfoldable pub open_from_file : (Text → Option Json) → Text → List Text → Read Asciicast
unfolding from_value read_lines
open_from_file loads first_line file = from_value (loads (first_line ++ read_lines file))

-- The player's pass back to relative times gives the delays that the file holds, whether all events
-- or those of output are asked for.
pub events-delays :
    (type_ : Option Text) (a : Asciicast)
    → wants_output type_ ≡ true
    → to_relative_time (events type_ a) ≡ stdout_events a
unfolding events
events-delays type_ a h = rw h (to_relative-to_absolute (stdout_events a))
