-- ===== src/Asciicast/V2/Reader.antt =====
-- asciinema/asciicast/v2.py: `open_from_file`, `Asciicast.events`, `get_duration`. A file is the list
-- of its lines, each with its line feed; `loads` stands for `json.loads`.
use asciinema.Base.{
  ℕ, ◌*◌, ◌==◌, if◌then◌else◌, Bool, true, false, Option, none, some, List, [], ◌∷◌, Text, bytes_eq,
  pos, last_of,
}
use asciinema.Asciicast.Json.{Json, int, float, str, arr, obj, nil, cons, Fields, get_field}

-- The exceptions that reading can raise.
pub data Raised : Type 0 where
  load_error : Raised
  json_decode_error : Raised
  type_error : Raised
  index_error : Raised
  key_error : Raised
  attribute_error : Raised

pub data Read (A : Type 0) : Type 0 where
  returned : A → Read A
  raised : Raised → Read A

-- A generator: what it yields, and what it then raises, if anything.
pub record Stream : Type 0 where
  pub items : List Json
  pub raises : Option Raised

pub record Asciicast : Type 0 where
  pub file : List Text
  pub v2_header : Fields
  pub idle_time_limit : Option Json

unfoldable pub is_number : ℕ → Json → Bool
is_number n (int (pos m)) = m == n
is_number n (float (pos t)) = t == n * 1_000_000_000
is_number n (Json.bool true) = n == 1
is_number n (Json.bool false) = n == 0
is_number n _ = false

-- `v2_header.get("version") == 2`
unfoldable pub has_version : ℕ → Fields → Bool
unfolding is_number
has_version n header = elim (get_field "version" header) [ none ↦ false | some v ↦ is_number n v ]

unfoldable pub build_from_header_and_file : Fields → List Text → Asciicast
build_from_header_and_file header file = record {
  file = file;
  v2_header = header;
  idle_time_limit = get_field "idle_time_limit" header;
}

unfoldable pub from_first_value : Option Json → List Text → Read Asciicast
unfolding has_version build_from_header_and_file
from_first_value none file = raised load_error
from_first_value (some (obj header)) file =
    if has_version 2 header
    then returned (build_from_header_and_file header file)
    else raised load_error
from_first_value (some _) file = raised attribute_error

-- `event[0]`
unfoldable pub first_item : Json → Read Json
first_item (arr (cons x rest)) = returned x
first_item (arr nil) = raised index_error
first_item (str (c ∷ rest)) = returned (str (c ∷ []))
first_item (str []) = raised index_error
first_item (obj fields) = raised key_error
first_item _ = raised type_error

-- `event[1]`
unfoldable pub second_item : Json → Read Json
second_item (arr (cons x (cons y rest))) = returned y
second_item (arr _) = raised index_error
second_item (str (c ∷ d ∷ rest)) = returned (str (d ∷ []))
second_item (str _) = raised index_error
second_item (obj fields) = raised key_error
second_item _ = raised type_error

unfoldable pub is_text : Text → Json → Bool
unfolding bytes_eq
is_text t (str s) = bytes_eq s t
is_text t _ = false

unfoldable pub yield_event : Json → Stream → Stream
yield_event event rest = record rest { items = event ∷ rest.items }

unfoldable pub yield_matching : Text → Json → Stream → Stream
unfolding second_item is_text yield_event
yield_matching type_ event rest = elim (second_item event) [
  | raised e ↦ record { items = []; raises = some e }
  | returned etype ↦ if is_text type_ etype then yield_event event rest else rest
]

-- `last_frame[0]`, where no frame leaves `None`.
unfoldable pub time_of_last : Option Json → Read Json
unfolding first_item
time_of_last none = raised type_error
time_of_last (some frame) = first_item frame

unfoldable pub duration_of_events : Stream → Read Json
unfolding time_of_last
duration_of_events stream = elim stream.raises [
  | none ↦ time_of_last (last_of none stream.items)
  | some e ↦ raised e
]

module _ (loads : Text → Option Json) where
  unfoldable pub open_from_file : Text → List Text → Read Asciicast
  unfolding from_first_value
  open_from_file first_line file = from_first_value (loads first_line) file

  -- Both loops of `Asciicast.events`, over the lines that are left.
  unfoldable pub events_of : Option Text → List Text → Stream
  unfolding yield_event yield_matching bytes_eq
  events_of type_ [] = record { items = []; raises = none }
  events_of type_ (line ∷ lines) =
      let rest = events_of type_ lines in
      if bytes_eq line (b'\n' ∷ [])
      then record { items = []; raises = none }
      else elim (loads line) [
        | none ↦ record { items = []; raises = some json_decode_error }
        | some event ↦ elim type_ [
          | none ↦ yield_event event rest
          | some t ↦ yield_matching t event rest
        ]
      ]

  unfoldable pub events : Option Text → Asciicast → Stream
  unfolding events_of
  events type_ a = events_of type_ a.file

  unfoldable pub duration_of : Read Asciicast → Read Json
  unfolding events duration_of_events
  duration_of (raised e) = raised e
  duration_of (returned a) = duration_of_events (events (some (b'o' ∷ [])) a)

  -- `readline` of an empty file gives an empty line.
  unfoldable pub get_duration : List Text → Read Json
  unfolding open_from_file duration_of
  get_duration [] = duration_of (open_from_file [] [])
  get_duration (first_line ∷ file) = duration_of (open_from_file first_line file)
